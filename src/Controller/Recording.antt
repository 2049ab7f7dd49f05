-- ===== src/Controller/Recording.antt =====
-- controller/service.py: what is recorded of a controller, and how it is read back.
use portable_runtime.Base.{
  String, Bool, ◌&&◌, ◌||◌, Option, none, some, List, [], ◌∷◌, ◌==◌, all, ltb, eqb, if◌then◌else◌,
}
use portable_runtime.Base.Result.{Result, ok, err}
use portable_runtime.Controller.Models.{
  ControllerState, ControllerDecision, CognitiveClosure, is_valid_state, is_structurally_closed,
}
use portable_runtime.Journal.{
  Store, Env, Event, Payload, state_recorded, decision_selected, closure_formed, list_events, M,
  record_event,
}
use portable_runtime.Journal.Errors.{Error, invalid_controller_state, invalid_closure}

abbrev pub state_of : Payload → Option ControllerState
state_of (state_recorded st) = some st
state_of _ = none

abbrev pub closure_of : Payload → Option CognitiveClosure
closure_of (closure_formed _ c) = some c
closure_of _ = none

unfoldable pub collect : {A : Type 0} → (Payload → Option A) → List Event → List A
collect kind [] = []
collect kind (e ∷ es) =
    let rest = collect kind es in elim (kind e.payload) [ none ↦ rest | some a ↦ a ∷ rest ]

-- The key `(version, updated_at)`.
abbrev pub is_before : ControllerState → ControllerState → Bool
is_before a b =
    ltb a.version b.version || (eqb a.version b.version && ltb a.updated_at b.updated_at)

-- `max`, the first of equal ones.
unfoldable pub latest_from : ControllerState → List ControllerState → ControllerState
latest_from x [] = x
latest_from x (y ∷ ys) = latest_from (if is_before x y then y else x) ys

abbrev pub latest : List ControllerState → Option ControllerState
latest [] = none
latest (x ∷ xs) = some (latest_from x xs)

unfoldable pub recorded_states : String → Store → List ControllerState
unfolding collect list_events
recorded_states id s = collect state_of (list_events id s.events)

-- `model_validate` on what is read back raises on the first invalid value.
unfoldable pub get : String → Store → Result Error (Option ControllerState)
unfolding recorded_states is_valid_state latest_from
get id s =
    let states = recorded_states id s in
    if all is_valid_state states then ok (latest states) else err invalid_controller_state

unfoldable pub closures : String → Store → Result Error (List CognitiveClosure)
unfolding collect list_events is_structurally_closed
closures id s =
    let values = collect closure_of (list_events id s.events) in
    if all is_structurally_closed values then ok values else err invalid_closure

unfoldable pub find_closure : String → List CognitiveClosure → Option CognitiveClosure
find_closure id [] = none
find_closure id (c ∷ cs) = if c.id == id then some c else find_closure id cs

abbrev pub found_in :
    String → Result Error (List CognitiveClosure) → Result Error (Option CognitiveClosure)
found_in id (ok cs) = ok (find_closure id cs)
found_in id (err e) = err e

unfoldable pub get_closure : String → String → Store → Result Error (Option CognitiveClosure)
unfolding closures find_closure
get_closure controller_id id s = found_in id (closures controller_id s)

module _ (env : Env) where
  -- `_record_state`
  unfoldable pub record_state : ControllerState → M Event
  unfolding record_event
  record_state st = record_event env st.id (state_recorded st)

  -- `_record_decision`
  unfoldable pub record_decision : ControllerDecision → M Event
  unfolding record_event
  record_decision d = record_event env d.controller_ref (decision_selected d)
