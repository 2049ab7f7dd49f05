-- ===== src/Responsibility/Kernel/Tests.antt =====
-- The theorems on the kernel at a concrete journal.
use portable_runtime.Base.{◌≡◌, refl, true, none, some, List, [], ◌∷◌, map}
use portable_runtime.Base.Result.{is_ok, err}
use portable_runtime.Responsibility.Models.{
  ResponsibilityObject, ResponsibilityLifecycleTransition, lifecycle, active, suspended, standing,
  admission, assessment, proposal, priority, pool, portfolio, reservation, read_only,
  ResourceReservation, WorkProposal, Commitment,
}
use portable_runtime.Responsibility.Models.Resources.{
  ResourceVector, no_resources, fits_within, left_of, plus, quota_of,
}
use portable_runtime.Journal.{
  Store, Env, Event, object_recorded, ◌>>=◌, find_event, list_events, sort_events, insert_event,
  append_event, transaction,
}
use portable_runtime.Responsibility.Kernel.Objects.{
  id_of, subject_of, get, list_of, list_all, objects_of, sort_objects, insert_object, save,
  save_append_only,
}
use portable_runtime.Responsibility.Kernel.History.{
  pick, get_as, current_definition, current_status, fold_revisions, sort_revisions,
  fold_transitions, insert_transition, sort_transitions,
}
use portable_runtime.Responsibility.Kernel.Resources.{
  reserve, commit, available_resources, used_resources, sum_used, reservation_released,
}
use portable_runtime.Journal.Errors.{lifecycle_not_contiguous}
use portable_runtime.Responsibility.Kernel.Operations.{transition}
use portable_runtime.Responsibility.Kernel.Commitment.{same_resources_self}

abbrev env : Env
env = record { clock = λ n. n; new_id = λ kind n. kind; event_id = λ id. id }

abbrev two_calls : ResourceVector
two_calls = record no_resources { api_calls = 2; domain_quota = ("gpu", 1) ∷ [] }

abbrev work : WorkProposal
work = record {
  id = "proposal";
  created_at = 3;
  responsibility_ref = "resp";
  responsibility_version = 1;
  assessment_ref = "assessment";
  subject_ref = "repo";
  work_kind = "repair";
  title = "repair the build";
  description = "";
  requested_resources = two_calls;
  requested_capabilities = [];
  expected_result = "";
  stop_conditions = [];
  escalation_conditions = [];
  effect_class = read_only;
  fresh_until = some 50;
}

abbrev held : ResourceReservation
held = record {
  id = "reservation";
  created_at = 7;
  responsibility_ref = "resp";
  proposal_ref = "proposal";
  resource_pool_ref = "pool";
  resources = two_calls;
  reserved_at = 7;
  expires_at = some 40;
}

-- An admitted responsibility with a proposal, a granted judgment and admission, and a pool.
abbrev objects : List ResponsibilityObject
objects =
    standing (record {
      id = "resp";
      created_at = 0;
      responsibility_kind = "build";
      statement = "the build is green";
      scope = [];
      schema_version = "persistent-responsibility-v1";
    })
    ∷ admission (record {
      id = "admission";
      created_at = 1;
      responsibility_ref = "resp";
      responsibility_version = 1;
      principal_ref = "owner";
      basis_refs = [];
      admitted_at = 1;
    })
    ∷ assessment (record {
      id = "assessment";
      created_at = 2;
      responsibility_ref = "resp";
      responsibility_version = 1;
      subject_ref = "repo";
      assessment_kind = "expected-signal-missing";
      basis_refs = [];
      assessed_at = 2;
      fresh_until = none;
      rationale = "";
    })
    ∷ proposal work
    ∷ priority (record {
      id = "judgment";
      created_at = 4;
      proposal_ref = "proposal";
      dimensions = record {
        urgency = 1;
        impact = 1;
        risk = 0;
        reversibility = 1;
        confidence = 1;
        resource_cost = 1;
        human_attention_cost = 0;
      };
      policy_ref = "policy-1";
      admitted = true;
      rationale = "";
    })
    ∷ pool (record {
      id = "pool";
      created_at = 5;
      pool_key = "ci";
      capacity = record no_resources { api_calls = 3; domain_quota = ("gpu", 1) ∷ [] };
      policy_ref = "policy-1";
    })
    ∷ portfolio (record {
      id = "portfolio";
      created_at = 6;
      proposal_ref = "proposal";
      resource_pool_ref = "pool";
      policy_ref = "policy-1";
      admitted = true;
      rationale = "";
    })
    ∷ []

abbrev event_of : ResponsibilityObject → Event
event_of o = record {
  id = id_of o;
  created_at = 0;
  subject_ref = subject_of o;
  payload = object_recorded o;
}

abbrev store_of : List ResponsibilityObject → Store
store_of os = record { events = map event_of os; works = λ _. none; draws = 0 }

abbrev pledge : Commitment
pledge = record {
  id = "commitment";
  created_at = 8;
  responsibility_ref = "resp";
  responsibility_version = 1;
  proposal_ref = "proposal";
  priority_judgment_ref = "judgment";
  portfolio_admission_ref = "portfolio";
  reservation_ref = "reservation";
  resources = two_calls;
  committed_at = 8;
  stop_conditions = [];
  escalation_conditions = [];
}

reserve_accepted : is_ok (reserve env held 7 (store_of objects)).0 ≡ true
unfolding reserve transaction available_resources used_resources sum_used reservation_released
    fits_within left_of plus quota_of ◌>>=◌ get_as get find_event list_events sort_events
    insert_event pick list_of list_all objects_of sort_objects insert_object save_append_only save
    append_event subject_of
reserve_accepted = rw (same_resources_self two_calls) refl

commit_accepted : is_ok (commit env pledge 8 (store_of (reservation held ∷ objects))).0 ≡ true
unfolding commit current_definition current_status fold_revisions sort_revisions fold_transitions
    sort_transitions reservation_released ◌>>=◌ get_as get find_event list_events sort_events
    insert_event pick list_of list_all objects_of sort_objects insert_object save_append_only save
    append_event subject_of
commit_accepted = rw (same_resources_self two_calls) refl

abbrev suspension : ResponsibilityLifecycleTransition
suspension = record {
  id = "suspension";
  created_at = 9;
  responsibility_ref = "resp";
  responsibility_version = 1;
  from_status = active;
  to_status = suspended;
  basis_refs = [];
  decision_ref = none;
  authority_ref = none;
  applied_at = 10;
  reason = "";
}

-- A resumption that is dated before the suspension is accepted, and the status can no longer be read.
abbrev resumption : ResponsibilityLifecycleTransition
resumption = record suspension {
  id = "resumption";
  from_status = suspended;
  to_status = active;
  applied_at = 5;
}

abbrev suspended_store : Store
suspended_store = store_of (lifecycle suspension ∷ objects)

resumption_accepted : is_ok (transition env resumption suspended_store).0 ≡ true
unfolding transition current_definition current_status fold_revisions sort_revisions
    fold_transitions sort_transitions insert_transition ◌>>=◌ get_as get find_event list_events
    sort_events insert_event pick list_of objects_of sort_objects insert_object save_append_only
    save append_event subject_of
resumption_accepted = refl

status_lost :
    current_status env "resp" (transition env resumption suspended_store).1
    ≡ err lifecycle_not_contiguous
unfolding transition current_definition current_status fold_revisions sort_revisions
    fold_transitions sort_transitions insert_transition ◌>>=◌ get_as get find_event list_events
    sort_events insert_event pick list_of objects_of sort_objects insert_object save_append_only
    save append_event subject_of
status_lost = refl
