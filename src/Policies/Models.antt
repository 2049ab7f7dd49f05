-- ===== src/Policies/Models.antt =====
-- `Obligation` and `PolicyDecision`, with its validator. The values of parameters are texts, and the
-- entries of a dict stand in the order of its keys.
use Prim.Native.String.{◌++◌}
use portable_runtime.Base.{
  String, Bool, true, false, not, ◌&&◌, Option, none, some, is_some, List, [], ◌∷◌, map, ◌==◌,
  if◌then◌else◌, any, non_empty,
}
use portable_runtime.Base.Text.{join}

pub record Obligation : Type 0 where
  pub kind : String
  pub params : List (String × String)
  pub waivable : Bool

pub data Disposition : Type 0 where
  allow deny defer require : Disposition

pub data Status : Type 0 where
  allowed denied require_approval require_verification : Status

pub record PolicyDecision : Type 0 where
  pub disposition : Option Disposition
  pub obligations : List Obligation
  pub reason_refs : List String
  pub policy_refs : List String
  pub status : Option Status
  pub reason : Option String

abbrev pub approval_obligation : Obligation
approval_obligation = record {
  kind = "approval";
  params = ("required_role", "owner") ∷ [];
  waivable = true;
}

abbrev pub revalidation_before_execution_obligation : Bool → Obligation
revalidation_before_execution_obligation waivable = record {
  kind = "revalidation_before_execution";
  params = [];
  waivable = waivable;
}

-- `bool(reason)`
abbrev pub has_text : Option String → Bool
has_text none = false
has_text (some t) = not (t == "")

abbrev pub text_list : Option String → List String
text_list none = []
text_list (some t) = t ∷ []

-- `mapping.get(status)`
abbrev pub disposition_of : Status → Disposition
disposition_of allowed = allow
disposition_of denied = deny
disposition_of require_approval = require
disposition_of require_verification = require

-- The obligation that stands for a legacy status.
abbrev pub legacy_obligations : Status → List Obligation
legacy_obligations require_approval = approval_obligation ∷ []
legacy_obligations require_verification = revalidation_before_execution_obligation true ∷ []
legacy_obligations _ = []

abbrev pub requires : Disposition → Bool
requires require = true
requires _ = false

-- The first step of `_sync`: a disposition from the status.
unfoldable pub sync_disposition : PolicyDecision → PolicyDecision
sync_disposition d = elim d.disposition [
  | some _ ↦ d
  | none ↦ elim d.status [
    | none ↦ d
    | some status ↦
        let found = record d { disposition = some (disposition_of status) } in
        if requires (disposition_of status) && not (non_empty d.obligations)
        then record found {
          obligations = legacy_obligations status;
          reason_refs = if has_text d.reason then text_list d.reason else d.reason_refs;
        }
        else found
  ]
]

abbrev pub has_kind : String → List Obligation → Bool
has_kind kind obligations = any (λ o. o.kind == kind) obligations

-- The status of a disposition.
abbrev pub status_of : Disposition → List Obligation → Status
status_of allow obligations = allowed
status_of deny obligations = denied
status_of defer obligations = require_approval
status_of require obligations =
    if has_kind "revalidation_before_execution" obligations && not (has_kind "approval" obligations)
    then require_verification
    else require_approval

-- The reason that is made for a decision without a status.
abbrev pub made_reason : PolicyDecision → Option String
made_reason d =
    if has_text d.reason
    then d.reason
    else if non_empty d.reason_refs
    then some (join ";" d.reason_refs)
    else if non_empty d.obligations
    then some ("requires " ++ join "," (map (λ o. o.kind) d.obligations))
    else d.reason

-- Its second step: a status from the disposition.
unfoldable pub sync_status : PolicyDecision → PolicyDecision
unfolding join
sync_status d = elim d.status [
  | some _ ↦ d
  | none ↦ elim d.disposition [
    | none ↦ d
    | some disposition ↦ record d {
      status = some (status_of disposition d.obligations);
      reason = made_reason d;
    }
  ]
]

abbrev pub or_default : {A : Type 0} → Option A → A → A
or_default none a = a
or_default (some x) a = x

-- `PolicyDecision._sync`
unfoldable pub sync : PolicyDecision → PolicyDecision
unfolding sync_disposition sync_status join
sync d =
    let e = sync_status (sync_disposition d) in
    record e {
      disposition = some (or_default e.disposition allow);
      status = some (or_default e.status allowed);
      reason =
          if not (is_some e.reason) && non_empty e.reason_refs
          then some (join ";" e.reason_refs)
          else e.reason;
    }
