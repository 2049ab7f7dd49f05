-- ===== src/Journal/Models.antt =====
-- Events, by what they record, and the store that keeps them in the order of their insertion.
use native.Mathlib.Decide.{ℕ_discrete}
use portable_runtime.Base.{
  ℕ, String, Bool, true, false, Option, none, some, List, [], ◌∷◌, ◌==◌, ◌≡◌, String-discrete, leb,
  keep, if◌then◌else◌,
}
use portable_runtime.Base.Dict.{Dict}
use portable_runtime.Responsibility.Models.{ResponsibilityObject}
use portable_runtime.Controller.Models.{
  ControllerState, ControllerDecision, CognitiveClosure, RevisionAssessment,
}

-- The part of a `CapabilityResult` that the model carries.
pub record CapabilityResult : Type 0 where
  pub request_id : String
  pub provider_id : String
  pub status : String
  pub message : Option String

-- The payload of an event, one constructor for each event type that the model writes; `other` is an
-- event of any other type.
pub data Payload : Type 0 where
  state_recorded : ControllerState → Payload
  decision_selected : ControllerDecision → Payload
  result_observed : String → String → ℕ → CapabilityResult → Payload
  closure_formed : String → CognitiveClosure → Payload
  work_handed_off : String → String → String → String → Payload
  revision_assessed : String → RevisionAssessment → Payload
  reopen_needed : String → ℕ → Payload
  object_recorded : ResponsibilityObject → Payload
  other : String → String → Payload

pub record Event : Type 0 where
  pub id : String
  pub created_at : ℕ
  pub subject_ref : String
  pub payload : Payload

-- The part of a `Work` that the controller reads.
pub record Work : Type 0 where
  pub id : String
  pub responsibility_proposal_ref : Option String

-- `draws` counts the readings of the clock and the identifiers drawn so far.
pub record Store : Type 0 where
  pub events : List Event
  pub works : Dict Work
  pub draws : ℕ

-- The outside: what each reading of the clock and each new identifier is.
pub record Env : Type 0 where
  pub clock : ℕ → ℕ
  pub new_id : String → ℕ → String
  -- the identifier of the event that holds an object, a digest of the object's
  pub event_id : String → String

pub Event-discrete : Discrete Event
Event-discrete = hlevel (String-discrete, ℕ_discrete)

abbrev pub undated : Event → Event
undated e = record e { created_at = 0 }

abbrev pub decided : {A : Type 0} → Dec A → Bool
decided (yes _) = true
decided (no _) = false

-- Equality of the dumps without `created_at`.
unfoldable pub same_event : Event → Event → Bool
same_event a b = decided (Event-discrete (undated a) (undated b))

pub same_event-eq : (a b : Event) → same_event a b ≡ true → undated a ≡ undated b
unfolding same_event
same_event-eq a b h = go (Event-discrete (undated a) (undated b)) h
  where
    go : (d : Dec (undated a ≡ undated b)) → decided d ≡ true → undated a ≡ undated b
    go (yes p) k = p
    go (no p) k = cc

-- `get_event`
unfoldable pub find_event : String → List Event → Option Event
find_event id [] = none
find_event id (e ∷ es) = if e.id == id then some e else find_event id es

-- The stable sort of `_list`: the newest event first.
unfoldable pub insert_event : Event → List Event → List Event
insert_event e [] = e ∷ []
insert_event e (x ∷ xs) =
    let rest = x ∷ insert_event e xs in if leb x.created_at e.created_at then e ∷ x ∷ xs else rest

unfoldable pub sort_events : List Event → List Event
sort_events [] = []
sort_events (e ∷ es) = insert_event e (sort_events es)

-- `list_events(subject_ref)`
unfoldable pub list_events : String → List Event → List Event
unfolding sort_events insert_event
list_events subject es = keep (λ e. e.subject_ref == subject) (sort_events es)
