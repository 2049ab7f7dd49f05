-- ===== src/Controller/Tests.antt =====
-- The theorems on the controller at a concrete journal.
mod Work
use Prim.Native.Char.{nul}
use text.Mathlib.TextLemmas.{nil≢cons, tail-eq_of_cons-eq}
use portable_runtime.Base.{
  zero, suc, sym, eq_iff, ap, ◌==◌, true, false, ℕ, String, ◌≡◌, ◌≢◌, refl, eqb, if◌then◌else◌, ◌⊎◌,
  inl, inr, Bool-cases, none, some, [], ◌∷◌,
}
use portable_runtime.Base.Result.{is_ok, ok, err}
use portable_runtime.Controller.Models.{
  ControllerState, open_, waiting, ControllerDecision, invoke_capability, reopen, wait,
  is_valid_state,
}
use portable_runtime.Controller.Guards.{admits, require_current}
use portable_runtime.Controller.Recording.{
  collect, latest_from, recorded_states, get, record_state, record_decision,
}
use portable_runtime.Controller.Operations.{transition, CreateArguments, create, require_reopening}
use portable_runtime.Controller.Apply.{CapabilityRequest, apply}
use portable_runtime.Controller.Current.{IsCurrent}
use portable_runtime.Controller.Handing.{LeavesControllers}
use portable_runtime.Controller.Progress.{HasNames, IsStuck, Applied, apply_follows}
use portable_runtime.Controller.Start.{
  IsUnknown, Begins, create-Begins, MustReopen, reopening_follows,
}
use portable_runtime.Controller.Unreadable.{blank_wait_unreadable}
use portable_runtime.Controller.Moves.{MovedTo}
use portable_runtime.Controller.Success.{IsFresh, admitted_succeeds}
use portable_runtime.Controller.Refusals.{apply_refuses, closure_binds, handed_off_binds}
use portable_runtime.Journal.{
  Store, Env, CapabilityResult, state_recorded, M, pure, list_events, sort_events, insert_event,
  find_event, append_event, record_event, ◌>>=◌,
}
use portable_runtime.Journal.Errors.{
  invalid_controller_state, stale_decision, closure_admits_only, handed_off_requires_revision,
}
use portable_runtime.Journal.Logic.{Post}

-- A decision is recorded under the first of these, the state after it under the second.
abbrev label : ℕ → String
label n = if eqb n 1 then "a" else if eqb n 4 then "b" else "c"

label-named : (n : ℕ) → label n ≢ ""
label-named n = elim (Bool-cases (eqb n 1)) [
  | inl e ↦ rw e (λ k. cc k)
  | inr e ↦
      rw e (elim (Bool-cases (eqb n 4)) [ inl f ↦ rw f (λ k. cc k) | inr f ↦ rw f (λ k. cc k) ])
]

abbrev env : Env
env = record { clock = λ n. n; new_id = λ kind n. label n; event_id = λ id. id }

-- A runtime that answers every request.
abbrev invoke : CapabilityRequest → M CapabilityResult
invoke request = pure (record {
  request_id = request.id;
  provider_id = "local";
  status = "succeeded";
  message = none;
})

invoke-LeavesControllers : LeavesControllers invoke
invoke-LeavesControllers P stable request s p = p

-- An open controller whose closure is active.
abbrev pub state : ControllerState
state = record {
  id = "controller_1";
  responsibility_ref = some "resp_1";
  subject_ref = some "repo";
  context_refs = [];
  candidate_refs = [];
  open_issue_refs = [];
  status = open_;
  version = 2;
  pending_ref = none;
  active_closure_ref = some "closure_1";
  work_proposal_ref = none;
  last_revision_ref = none;
  last_decision_ref = none;
  last_result_ref = none;
  created_at = 0;
  updated_at = 0;
}

abbrev store_of : ControllerState → Store
store_of st = record {
  events =
      record {
        id = "event_1";
        created_at = 0;
        subject_ref = "controller_1";
        payload = state_recorded st;
      }
      ∷ [];
  works = λ _. none;
  draws = 1;
}

state-IsCurrent : IsCurrent "controller_1" state (store_of state)
state-IsCurrent = record {
  same_id = refl;
  valid = unfold is_valid_state in refl;
  recorded = inl (refl, refl);
  newest = (λ _. (unfold is_valid_state in refl, inl refl), tt);
}

abbrev pub decision : ControllerDecision
decision = record {
  id = "decision_1";
  controller_ref = "controller_1";
  state_version = 2;
  kind = wait;
  reason = "the owner is asked";
  policy_ref = none;
  capability = none;
  instruction = none;
  parameters = [];
  constraints = [];
  closure = none;
  closure_ref = none;
  assessment_ref = none;
  work_kind = "";
  work_title = none;
  work_description = "";
  requested_capabilities = [];
  expected_result = "";
  stop_conditions = [];
  escalation_conditions = [];
  effect_class = "read-only";
  revision = none;
}

decision-HasNames : HasNames decision
decision-HasNames = record { decision = λ e. cc e; revision = λ r e. cc e }

-- The controller waits.
decision_applied :
    (apply env invoke decision (store_of state)).0
    ≡ ok (record state {
      status = waiting;
      version = 3;
      pending_ref = some "decision_1";
      last_decision_ref = some "decision_1";
      updated_at = 3;
    })
unfolding apply require_current get recorded_states collect list_events sort_events insert_event
    latest_from is_valid_state admits record_decision record_event append_event find_event
    transition record_state ◌>>=◌
decision_applied = refl

apply_follows_example :
    let done = apply env invoke decision (store_of state) in
    Post
      (Applied env "controller_1" state decision invoke
        (λ _. label-named)
        invoke-LeavesControllers
        decision-HasNames)
      (λ s. IsCurrent "controller_1" state s ⊎ IsStuck wait "controller_1" state decision s)
      done.0
      done.1
apply_follows_example =
    apply_follows env "controller_1" state decision invoke (λ _. label-named)
      invoke-LeavesControllers decision-HasNames (store_of state) refl state-IsCurrent

apply_refuses_example :
    apply env invoke (record decision { state_version = 1 }) (store_of state)
    ≡ (err stale_decision, store_of state)
apply_refuses_example =
    apply_refuses env invoke "controller_1" state (record decision { state_version = 1 })
      (store_of state) stale_decision refl state-IsCurrent (inl (λ e. cc e, refl))

closure_binds_example :
    apply env invoke
      (record decision { kind = invoke_capability; capability = some "search" })
      (store_of state)
    ≡ (err closure_admits_only, store_of state)
closure_binds_example =
    closure_binds env invoke "controller_1" state
      (record decision { kind = invoke_capability; capability = some "search" }) (store_of state)
      "closure_1" refl state-IsCurrent refl refl refl (inl refl)

-- The controller after it has handed work off.
abbrev handed_off : ControllerState
handed_off = record state {
  status = waiting;
  pending_ref = some "resp_9";
  work_proposal_ref = some "resp_9";
}

handed_off-IsCurrent : IsCurrent "controller_1" handed_off (store_of handed_off)
handed_off-IsCurrent = record {
  same_id = refl;
  valid = unfold is_valid_state in refl;
  recorded = inl (refl, refl);
  newest = (λ _. (unfold is_valid_state in refl, inl refl), tt);
}

handed_off_binds_example :
    apply env invoke (record decision { kind = reopen }) (store_of handed_off)
    ≡ (err handed_off_requires_revision, store_of handed_off)
handed_off_binds_example =
    handed_off_binds env invoke "controller_1" handed_off (record decision { kind = reopen })
      (store_of handed_off) "closure_1" "resp_9" refl handed_off-IsCurrent refl refl refl refl
      (λ e. cc e)

-- Identifiers that are all different.
abbrev pub count : ℕ → String
count zero = String.◌∷◌ nul ""
count (suc n) = String.◌∷◌ nul (count n)

nil≢count : (n : ℕ) → "" ≢ count n
nil≢count zero = λ e. nil≢cons e
nil≢count (suc n) = λ e. nil≢cons e

count-injective : (m n : ℕ) → count m ≡ count n → m ≡ n
count-injective zero zero e = refl
count-injective zero (suc n) e = absurd (nil≢count n (tail-eq_of_cons-eq e))
count-injective (suc m) zero e = absurd (nil≢count m (sym (tail-eq_of_cons-eq e)))
count-injective (suc m) (suc n) e = ap suc (count-injective m n (tail-eq_of_cons-eq e))

event≢count : (n : ℕ) → ("event_1" == count n) ≡ false
event≢count zero = refl
event≢count (suc n) = elim (Bool-cases ("event_1" == count (suc n))) [
  | inl e ↦ let k : "event_1" ≡ count (suc n) = (eq_iff "event_1" (count (suc n))).0 e in cc
  | inr e ↦ e
]

abbrev pub counting : Env
counting = record { clock = λ n. n; new_id = λ kind n. count n; event_id = λ id. id }

counting-IsFresh : IsFresh counting (store_of state)
counting-IsFresh = record {
  unused = λ n l. unfold find_event in rw (event≢count n) refl;
  distinct = count-injective;
}

admitted_succeeds_example : is_ok (apply counting invoke decision (store_of state)).0 ≡ true
admitted_succeeds_example =
    admitted_succeeds counting invoke "controller_1" state decision (store_of state)
      counting-IsFresh refl state-IsCurrent refl (unfold admits in refl) (inr (inr refl))

abbrev empty_store : Store
empty_store = record { events = []; works = λ _. none; draws = 0 }

abbrev arguments : CreateArguments
arguments = record {
  responsibility_ref = some "resp_1";
  subject_ref = some "repo";
  context_refs = [];
  candidate_refs = [];
  open_issue_refs = [];
  controller_id = some "controller_1";
}

create-Begins_example :
    Post
      (MovedTo "controller_1" (Begins arguments))
      (IsUnknown "controller_1")
      (create env arguments empty_store).0
      (create env arguments empty_store).1
create-Begins_example = create-Begins "controller_1" env arguments empty_store refl (λ e. cc e) tt

reopening_follows_example :
    let done = require_reopening env "controller_1" "new evidence" (store_of state) in
    Post (MovedTo "controller_1" (MustReopen state)) (IsCurrent "controller_1" state) done.0 done.1
reopening_follows_example =
    reopening_follows "controller_1" env state "new evidence" (store_of state) state-IsCurrent

blank_wait_unreadable_example :
    let done = apply counting invoke (record decision { id = "" }) (store_of state) in
    (is_ok done.0 ≡ true) × (get "controller_1" done.1 ≡ err invalid_controller_state)
blank_wait_unreadable_example =
    blank_wait_unreadable counting invoke "controller_1" state (record decision { id = "" })
      (store_of state) counting-IsFresh state-IsCurrent refl refl (unfold admits in refl) refl refl
