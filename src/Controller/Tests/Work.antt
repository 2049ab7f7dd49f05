-- ===== src/Controller/Tests/Work.antt =====
-- Work that is handed off, at a concrete journal.
use portable_runtime.Base.{◌≡◌, refl, true, none, some, List, [], ◌∷◌, map}
use portable_runtime.Base.Text.{is_blank, strip, join}
use portable_runtime.Base.Result.{is_ok}
use portable_runtime.Responsibility.Models.{
  ResponsibilityObject, standing, admission, assessment, read_only,
}
use portable_runtime.Responsibility.Kernel.Objects.{
  id_of, subject_of, get, list_of, objects_of, sort_objects, insert_object, save, save_append_only,
}
use portable_runtime.Responsibility.Kernel.History.{
  pick, get_as, current_definition, current_status, fold_revisions, sort_revisions,
  fold_transitions, sort_transitions,
}
use portable_runtime.Responsibility.Kernel.Operations.{propose}
use portable_runtime.Controller.Recording.{
  get_closure, closures, find_closure, collect, record_state,
}
use portable_runtime.Controller.Operations.{transition}
use portable_runtime.Controller.Models.{
  ControllerDecision, propose_work, CognitiveClosure, is_structurally_closed,
}
use portable_runtime.Controller.Apply.{hand_off}
use portable_runtime.Controller.Bounds.{IsBounded, hand_off-IsBounded}
use portable_runtime.Controller.Tests.{state, decision, counting}
use portable_runtime.Journal.{
  Store, Event, object_recorded, closure_formed, state_recorded, ◌>>=◌, find_event, list_events,
  sort_events, insert_event, append_event, record_event,
}
use portable_runtime.Journal.Logic.{Post}

abbrev closure : CognitiveClosure
closure = record {
  id = "closure_1";
  controller_ref = "controller_1";
  controller_state_version = 1;
  responsibility_ref = some "resp_1";
  subject_ref = some "repo";
  problem_ref = none;
  scope = [];
  basis_refs = "evidence_1" ∷ [];
  selected_candidate_refs = [];
  deferred_candidate_refs = [];
  rejected_candidate_refs = [];
  deferred_issue_refs = [];
  selected_direction = "repair";
  rationale = "it fails";
  acceptance_criteria = "it passes" ∷ [];
  verification_plan = "run it" ∷ [];
  stop_conditions = [];
  escalation_conditions = [];
  reopen_conditions = "it still fails" ∷ [];
  requested_capabilities = "code.edit" ∷ "code.test" ∷ [];
  effect_class = read_only;
  policy_ref = none;
  handoff = record {
    subject_refs = [];
    goal_refs = [];
    constraint_refs = [];
    assumption_refs = [];
    evidence_refs = [];
    observation_refs = [];
    assertion_refs = [];
    unknown_refs = [];
    counterevidence_refs = [];
    selected_candidate_refs = [];
    deferred_candidate_refs = [];
    rejected_candidate_refs = [];
    authorization_refs = [];
    closure_refs = [];
    invalidation_refs = [];
    reopen_condition_refs = [];
    dispositions = [];
  };
  created_at = 0;
}

abbrev objects : List ResponsibilityObject
objects =
    standing (record {
      id = "resp_1";
      created_at = 0;
      responsibility_kind = "build";
      statement = "the build is green";
      scope = [];
      schema_version = "persistent-responsibility-v1";
    })
    ∷ admission (record {
      id = "admission_1";
      created_at = 1;
      responsibility_ref = "resp_1";
      responsibility_version = 1;
      principal_ref = "owner";
      basis_refs = [];
      admitted_at = 1;
    })
    ∷ assessment (record {
      id = "assessment_1";
      created_at = 2;
      responsibility_ref = "resp_1";
      responsibility_version = 1;
      subject_ref = "repo";
      assessment_kind = "expected-signal-missing";
      basis_refs = [];
      assessed_at = 2;
      fresh_until = none;
      rationale = "";
    })
    ∷ []

abbrev event_of : ResponsibilityObject → Event
event_of o = record {
  id = id_of o;
  created_at = 0;
  subject_ref = subject_of o;
  payload = object_recorded o;
}

abbrev store : Store
store = record {
  events =
      record {
        id = "event_1";
        created_at = 0;
        subject_ref = "controller_1";
        payload = state_recorded state;
      }
      ∷ record {
        id = "event_2";
        created_at = 0;
        subject_ref = "controller_1";
        payload = closure_formed "decision_0" closure;
      }
      ∷ map event_of objects;
  works = λ _. none;
  draws = 1;
}

abbrev proposing : ControllerDecision
proposing = record decision {
  kind = propose_work;
  closure_ref = some "closure_1";
  assessment_ref = some "assessment_1";
  work_kind = "repair";
  work_title = some "repair the build";
  requested_capabilities = "code.edit" ∷ [];
}

hand_off-IsBounded_example :
    Post
      (λ _ _. IsBounded state proposing store)
      (λ _. Unit)
      (hand_off counting state proposing store).0
      (hand_off counting state proposing store).1
hand_off-IsBounded_example = hand_off-IsBounded counting state proposing store

-- This work is handed off.
hand_off_accepted : is_ok (hand_off counting state proposing store).0 ≡ true
unfolding hand_off ◌>>=◌ get_closure closures find_closure collect list_events sort_events
    insert_event is_structurally_closed is_blank strip join current_definition current_status get_as
    get find_event fold_revisions sort_revisions fold_transitions sort_transitions pick list_of
    objects_of sort_objects insert_object propose save_append_only save append_event subject_of
    record_event transition record_state
hand_off_accepted = refl
