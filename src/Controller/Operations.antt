-- ===== src/Controller/Operations.antt =====
-- controller/service.py: `_transition`, and what it is called by where no other component takes part.
use portable_runtime.Base.{
  ℕ, ◌+◌, String, Bool, false, not, ◌&&◌, Option, none, some, List, ◌==◌, opt_eq, is_some,
  non_empty, subset, if◌then◌else◌,
}
use portable_runtime.Base.Result.{ok}
use portable_runtime.Controller.Models.{
  ControllerState, ControllerStatus, open_, waiting, closed, reopen_required, ControllerDecision,
  RevisionDisposition, revise_work, reopen_cognition, acquire_evidence, close_,
}
use portable_runtime.Controller.Recording.{get, record_state}
use portable_runtime.Journal.{
  Env, closure_formed, revision_assessed, reopen_needed, M, pure, raise_if, reads, require, utcnow,
  draw_id, record_event, ◌>>=◌, ◌>>◌,
}
use portable_runtime.Journal.Errors.{
  controller_exists, unknown_controller, no_closure, closure_responsibility, closure_subject,
  closure_candidates, closure_issues, closure_policy, no_revision, revision_closure_required,
  revision_proposal_required, revision_closure, revision_work, revision_descent, revision_policy,
}

-- The optional arguments of `_transition`; `none` is `_UNCHANGED`.
pub record Changes : Type 0 where
  pub active_closure_ref : Option (Option String)
  pub work_proposal_ref : Option (Option String)
  pub last_revision_ref : Option (Option String)
  pub last_result_ref : Option (Option String)

abbrev pub unchanged : Changes
unchanged = record {
  active_closure_ref = none;
  work_proposal_ref = none;
  last_revision_ref = none;
  last_result_ref = none;
}

abbrev pub changed : Option (Option String) → Option String → Option String
changed none old = old
changed (some new) old = new

-- The state that `_transition` records, updated at `now`.
abbrev pub moved :
    ControllerState
    → ControllerDecision
    → ControllerStatus
    → Option String
    → Changes
    → ℕ
    → ControllerState
moved st d status pending u now = record st {
  status = status;
  version = st.version + 1;
  pending_ref = pending;
  last_decision_ref = some d.id;
  updated_at = now;
  active_closure_ref = changed u.active_closure_ref st.active_closure_ref;
  work_proposal_ref = changed u.work_proposal_ref st.work_proposal_ref;
  last_revision_ref = changed u.last_revision_ref st.last_revision_ref;
  last_result_ref = changed u.last_result_ref st.last_result_ref;
}

-- The state that `reopen_required` records.
abbrev pub reopened : ControllerState → ℕ → ControllerState
reopened st now = record st {
  status = reopen_required;
  version = st.version + 1;
  pending_ref = none;
  updated_at = now;
}

-- The keyword arguments of `create`; a list that is not given is empty.
pub record CreateArguments : Type 0 where
  pub responsibility_ref : Option String
  pub subject_ref : Option String
  pub context_refs : List String
  pub candidate_refs : List String
  pub open_issue_refs : List String
  pub controller_id : Option String

abbrev pub new_state : CreateArguments → String → ℕ → ℕ → ControllerState
new_state a id created updated = record {
  id = id;
  responsibility_ref = a.responsibility_ref;
  subject_ref = a.subject_ref;
  context_refs = a.context_refs;
  candidate_refs = a.candidate_refs;
  open_issue_refs = a.open_issue_refs;
  status = open_;
  version = 0;
  pending_ref = none;
  active_closure_ref = none;
  work_proposal_ref = none;
  last_revision_ref = none;
  last_decision_ref = none;
  last_result_ref = none;
  created_at = created;
  updated_at = updated;
}

-- `policy_ref not in {None, decision.policy_ref}`
abbrev pub conflicts : Option String → Option String → Bool
conflicts none mine = false
conflicts (some p) none = false
conflicts (some p) (some q) = not (q == p)

-- The policy that a closure or a revision carries on.
abbrev pub policy_of : Option String → Option String → Option String
policy_of none mine = mine
policy_of (some p) mine = some p

abbrev pub status_after : RevisionDisposition → ControllerStatus
status_after close_ = closed
status_after revise_work = reopen_required
status_after reopen_cognition = reopen_required
status_after acquire_evidence = reopen_required
status_after _ = waiting

abbrev pub pending_after : ControllerStatus → String → Option String
pending_after waiting id = some id
pending_after _ id = none

module _ (env : Env) where
  -- `controller_id or new_id("controller")`
  abbrev pub chosen_id : Option String → M String
  chosen_id none = draw_id env "controller"
  chosen_id (some id) = if id == "" then draw_id env "controller" else pure id

  unfoldable pub create : CreateArguments → M ControllerState
  unfolding get record_state
  create a = do
    id ← chosen_id a.controller_id
    created ← utcnow env
    updated ← utcnow env
    let st = new_state a id created updated
    existing ← reads (get id)
    raise_if (is_some existing) controller_exists
    record_state env st
    pure st

  -- `_transition`
  unfoldable pub transition :
      ControllerState
      → ControllerDecision
      → ControllerStatus
      → Option String
      → Changes
      → M ControllerState
  unfolding record_state
  transition st d status pending u = do
    now ← utcnow env
    let next = moved st d status pending u now
    record_state env next
    pure next

  -- `reopen_required`
  unfoldable pub require_reopening : String → String → M ControllerState
  unfolding get record_state record_event
  require_reopening id reason = do
    found ← reads (get id)
    st ← require found unknown_controller
    record_event env st.id (reopen_needed reason st.version)
    now ← utcnow env
    let next = reopened st now
    record_state env next
    pure next

  -- `_form_closure`
  unfoldable pub form : ControllerState → ControllerDecision → M ControllerState
  unfolding record_event transition
  form st d = do
    c ← require d.closure no_closure
    raise_if (not (opt_eq st.responsibility_ref c.responsibility_ref)) closure_responsibility
    raise_if (not (opt_eq st.subject_ref c.subject_ref)) closure_subject
    raise_if
        (non_empty st.candidate_refs && not (subset c.selected_candidate_refs st.candidate_refs))
        closure_candidates
    raise_if (not (subset st.open_issue_refs c.deferred_issue_refs)) closure_issues
    raise_if (conflicts d.policy_ref c.policy_ref) closure_policy
    event ←
        record_event env st.id
          (closure_formed d.id (record c { policy_ref = policy_of d.policy_ref c.policy_ref }))
    transition st d open_ none (record unchanged {
      active_closure_ref = some (some c.id);
      last_result_ref = some (some event.id);
    })

  -- `_assess_revision`
  unfoldable pub assess : ControllerState → ControllerDecision → M ControllerState
  unfolding record_event transition
  assess st d = do
    r ← require d.revision no_revision
    closure_ref ← require st.active_closure_ref revision_closure_required
    proposal_ref ← require st.work_proposal_ref revision_proposal_required
    raise_if (not (r.closure_ref == closure_ref)) revision_closure
    found ← reads (λ s. ok (s.works r.work_ref))
    work ← require found revision_work
    raise_if (not (opt_eq work.responsibility_proposal_ref (some proposal_ref))) revision_descent
    raise_if (conflicts d.policy_ref r.policy_ref) revision_policy
    record_event env st.id
        (revision_assessed d.id (record r { policy_ref = policy_of d.policy_ref r.policy_ref }))
    let status = status_after r.recommended_disposition
    transition st d status (pending_after status r.id) (record unchanged {
      last_revision_ref = some (some r.id);
      last_result_ref = some (some r.id);
    })
