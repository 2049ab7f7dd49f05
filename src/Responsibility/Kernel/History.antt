-- ===== src/Responsibility/Kernel/History.antt =====
-- responsibility/service.py: the current definition and the current status, folded from the history.
use text.Mathlib.Text.{is_lt}
use Prim.Native.String.{compare}
use portable_runtime.Base.{
  ℕ, String, Bool, true, false, not, ◌&&◌, ◌||◌, Option, none, some, List, [], ◌∷◌, ltb, leb, eqb,
  non_empty, if◌then◌else◌,
}
use portable_runtime.Base.Result.{Result, ok, err, ◌>>=◌, ◌>>◌, raise_if}
use portable_runtime.Responsibility.Models.{
  ResponsibilityObject, standing, admission, revision, lifecycle, assessment, proposal, priority,
  pool, portfolio, reservation, release, ResponsibilityStatus, active, suspended, discharged, Scope,
  StandingResponsibility, ResponsibilityAdmission, ResponsibilityRevision,
  ResponsibilityLifecycleTransition, ResponsibilityAssessment, WorkProposal, PriorityJudgment,
  ResourcePool, PortfolioAdmissionDecision, ResourceReservation, ResourceReservationRelease,
}
use portable_runtime.Journal.{Store, Env}
use portable_runtime.Journal.Errors.{
  Error, unknown_object, wrong_object_type, history_not_contiguous, not_admitted,
  lifecycle_not_contiguous,
}
use portable_runtime.Responsibility.Kernel.Objects.{get, list_of}

abbrev pub as_standing : ResponsibilityObject → Option StandingResponsibility
as_standing (standing o) = some o
as_standing _ = none

abbrev pub as_admission : ResponsibilityObject → Option ResponsibilityAdmission
as_admission (admission o) = some o
as_admission _ = none

abbrev pub as_revision : ResponsibilityObject → Option ResponsibilityRevision
as_revision (revision o) = some o
as_revision _ = none

abbrev pub as_lifecycle : ResponsibilityObject → Option ResponsibilityLifecycleTransition
as_lifecycle (lifecycle o) = some o
as_lifecycle _ = none

abbrev pub as_assessment : ResponsibilityObject → Option ResponsibilityAssessment
as_assessment (assessment o) = some o
as_assessment _ = none

abbrev pub as_proposal : ResponsibilityObject → Option WorkProposal
as_proposal (proposal o) = some o
as_proposal _ = none

abbrev pub as_priority : ResponsibilityObject → Option PriorityJudgment
as_priority (priority o) = some o
as_priority _ = none

abbrev pub as_pool : ResponsibilityObject → Option ResourcePool
as_pool (pool o) = some o
as_pool _ = none

abbrev pub as_portfolio : ResponsibilityObject → Option PortfolioAdmissionDecision
as_portfolio (portfolio o) = some o
as_portfolio _ = none

abbrev pub as_reservation : ResponsibilityObject → Option ResourceReservation
as_reservation (reservation o) = some o
as_reservation _ = none

abbrev pub as_release : ResponsibilityObject → Option ResourceReservationRelease
as_release (release o) = some o
as_release _ = none

-- The objects of one type, in their order.
unfoldable pub pick :
    {A : Type 0} → (ResponsibilityObject → Option A) → List ResponsibilityObject → List A
pick kind [] = []
pick kind (o ∷ os) = let rest = pick kind os in elim (kind o) [ none ↦ rest | some a ↦ a ∷ rest ]

-- `sorted(key=to_version)`, which is stable.
unfoldable pub insert_revision :
    ResponsibilityRevision → List ResponsibilityRevision → List ResponsibilityRevision
insert_revision r [] = r ∷ []
insert_revision r (x ∷ xs) =
    let rest = x ∷ insert_revision r xs in
    if leb r.to_version x.to_version then r ∷ x ∷ xs else rest

unfoldable pub sort_revisions : List ResponsibilityRevision → List ResponsibilityRevision
sort_revisions [] = []
sort_revisions (r ∷ rs) = insert_revision r (sort_revisions rs)

pub record Definition : Type 0 where
  pub version : ℕ
  pub statement : String
  pub scope : Scope

abbrev pub revised : ResponsibilityRevision → Definition
revised r = record { version = r.to_version; statement = r.statement; scope = r.scope }

-- The loop of `current_definition` over the revisions.
unfoldable pub fold_revisions : List ResponsibilityRevision → Definition → Result Error Definition
fold_revisions [] d = ok d
fold_revisions (r ∷ rs) d =
    let rest = fold_revisions rs (revised r) in
    if not (eqb r.from_version d.version) then err history_not_contiguous else rest

-- The key `(applied_at, id)`.
abbrev pub applied_before :
    ResponsibilityLifecycleTransition → ResponsibilityLifecycleTransition → Bool
applied_before a b =
    ltb a.applied_at b.applied_at || (eqb a.applied_at b.applied_at && is_lt (compare a.id b.id))

unfoldable pub insert_transition :
    ResponsibilityLifecycleTransition
    → List ResponsibilityLifecycleTransition
    → List ResponsibilityLifecycleTransition
insert_transition t [] = t ∷ []
insert_transition t (x ∷ xs) =
    let rest = x ∷ insert_transition t xs in if applied_before x t then rest else t ∷ x ∷ xs

unfoldable pub sort_transitions :
    List ResponsibilityLifecycleTransition → List ResponsibilityLifecycleTransition
sort_transitions [] = []
sort_transitions (t ∷ ts) = insert_transition t (sort_transitions ts)

abbrev pub same_status : ResponsibilityStatus → ResponsibilityStatus → Bool
same_status active active = true
same_status suspended suspended = true
same_status discharged discharged = true
same_status _ _ = false

-- The loop of `current_status` over the transitions.
unfoldable pub fold_transitions :
    List ResponsibilityLifecycleTransition
    → ResponsibilityStatus
    → Result Error ResponsibilityStatus
fold_transitions [] st = ok st
fold_transitions (t ∷ ts) st =
    let rest = fold_transitions ts t.to_status in
    if not (same_status t.from_status st) then err lifecycle_not_contiguous else rest

abbrev pub require_type :
    {A : Type 0} → (ResponsibilityObject → Option A) → ResponsibilityObject → Result Error A
require_type kind o = elim (kind o) [ none ↦ err wrong_object_type | some a ↦ ok a ]

module _ (env : Env) where
  -- `_get(object_id, expected_type)`
  unfoldable pub get_as :
      {A : Type 0} → (ResponsibilityObject → Option A) → String → Store → Result Error A
  get_as kind id s = elim (get env id s) [
    | none ↦ err unknown_object
    | some o ↦ require_type kind o
  ]

  -- The lists of `current_definition` and `current_status`.
  abbrev pub revisions_of : String → Store → List ResponsibilityRevision
  revisions_of ref s = sort_revisions (pick as_revision (list_of ref s))

  abbrev pub transitions_of : String → Store → List ResponsibilityLifecycleTransition
  transitions_of ref s = sort_transitions (pick as_lifecycle (list_of ref s))

  abbrev pub defined : StandingResponsibility → Definition
  defined o = record { version = 1; statement = o.statement; scope = o.scope }

  unfoldable pub current_definition : String → Store → Result Error Definition
  unfolding get_as fold_revisions sort_revisions insert_revision pick
  current_definition ref s = do
    identity ← get_as as_standing ref s
    fold_revisions (revisions_of ref s) (defined identity)

  unfoldable pub current_status : String → Store → Result Error ResponsibilityStatus
  unfolding get_as fold_transitions sort_transitions insert_transition pick
  current_status ref s = do
    get_as as_standing ref s
    raise_if (not (non_empty (pick as_admission (list_of ref s)))) not_admitted
    fold_transitions (transitions_of ref s) active
