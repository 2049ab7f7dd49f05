-- ===== src/Controller/Apply.antt =====
-- controller/service.py: `apply` and `step`, with the branches that call the responsibility kernel and
-- the runtime. The runtime and the policy are arguments.
use portable_runtime.Base.{
  ℕ, ◌+◌, String, Bool, true, false, not, Option, none, some, List, [], ◌∷◌, ◌==◌, opt_eq, eqb,
  subset, if◌then◌else◌,
}
use portable_runtime.Base.Text.{strip, is_blank, join}
use portable_runtime.Responsibility.Models.{
  EffectClass, read_only, internal_reversible, external_effect, Scope, WorkProposal,
}
use portable_runtime.Responsibility.Models.Resources.{no_resources}
use portable_runtime.Responsibility.Kernel.Objects.{id_of}
use portable_runtime.Responsibility.Kernel.History.{current_definition}
use portable_runtime.Responsibility.Kernel.Operations.{propose}
use portable_runtime.Controller.Models.{
  ControllerState, open_, waiting, closed, ControllerDecision, ControllerDecisionKind,
  invoke_capability, form_closure, propose_work, assess_revision, close, reopen, wait,
  CognitiveClosure,
}
use portable_runtime.Controller.Recording.{get, get_closure, record_state, record_decision}
use portable_runtime.Controller.Guards.{require_current}
use portable_runtime.Controller.Operations.{unchanged, transition, form, assess}
use portable_runtime.Journal.{
  Env, CapabilityResult, result_observed, work_handed_off, M, pure, raise_if, reads, require,
  utcnow, draw_id, record_event, ◌>>=◌, ◌>>◌,
}
use portable_runtime.Journal.Errors.{
  no_capability, propose_responsibility, propose_subject, propose_incomplete, propose_closure,
  closure_unavailable, invalid_effect_class, propose_effect, propose_capabilities,
  unknown_controller, blank_policy, policy_controller, policy_stale,
}

-- The request that `_invoke_capability` builds; its effect class is "read".
pub record CapabilityRequest : Type 0 where
  pub id : String
  pub capability : String
  pub instruction : Option String
  pub parameters : Scope
  pub constraints : Scope
  pub effect_class : String
  pub controller_ref : String
  pub controller_decision_ref : String
  pub controller_state_version : ℕ

-- `EffectClass(text)`
abbrev pub effect_of : String → Option EffectClass
effect_of text =
    if text == "read-only"
    then some read_only
    else if text == "internal-reversible"
    then some internal_reversible
    else if text == "external-effect"
    then some external_effect
    else none

abbrev pub same_effect : EffectClass → EffectClass → Bool
same_effect read_only read_only = true
same_effect internal_reversible internal_reversible = true
same_effect external_effect external_effect = true
same_effect _ _ = false

-- `list(asked) if asked else list(closure's)`
abbrev pub or_list : List String → List String → List String
or_list [] ys = ys
or_list (x ∷ xs) ys = x ∷ xs

abbrev pub or_text : String → String → String
or_text a b = if a == "" then b else a

-- The proposal that `_propose_work` builds.
abbrev pub work_proposal :
    String
    → ℕ
    → String
    → ℕ
    → String
    → String
    → String
    → ControllerDecision
    → CognitiveClosure
    → WorkProposal
work_proposal id now responsibility_ref version assessment_ref subject_ref title d c = record {
  id = id;
  created_at = now;
  responsibility_ref = responsibility_ref;
  responsibility_version = version;
  assessment_ref = assessment_ref;
  subject_ref = subject_ref;
  work_kind = d.work_kind;
  title = title;
  description = d.work_description;
  requested_resources = no_resources;
  requested_capabilities = or_list d.requested_capabilities c.requested_capabilities;
  expected_result = or_text d.expected_result (join "; " c.acceptance_criteria);
  stop_conditions = or_list d.stop_conditions c.stop_conditions;
  escalation_conditions = or_list d.escalation_conditions c.escalation_conditions;
  effect_class = c.effect_class;
  fresh_until = none;
}

-- The state that waits for the answer to a request, and the one that has it.
abbrev pub awaiting : ControllerState → ControllerDecision → String → ℕ → ControllerState
awaiting st d request_id now = record st {
  status = waiting;
  version = st.version + 1;
  pending_ref = some request_id;
  last_decision_ref = some d.id;
  updated_at = now;
}

abbrev pub resumed : ControllerState → String → ℕ → ControllerState
resumed st event_id now = record st {
  status = open_;
  version = st.version + 1;
  pending_ref = none;
  last_result_ref = some event_id;
  updated_at = now;
}

abbrev pub capability_request :
    ControllerState → ControllerDecision → String → String → CapabilityRequest
capability_request st d id capability = record {
  id = id;
  capability = capability;
  instruction = d.instruction;
  parameters = d.parameters;
  constraints = d.constraints;
  effect_class = "read";
  controller_ref = st.id;
  controller_decision_ref = d.id;
  controller_state_version = st.version;
}

module _ (env : Env) where
  -- `_propose_work`
  unfoldable pub hand_off : ControllerState → ControllerDecision → M ControllerState
  unfolding get_closure current_definition propose record_event transition join
  hand_off st d = do
    responsibility_ref ← require st.responsibility_ref propose_responsibility
    subject_ref ← require st.subject_ref propose_subject
    assessment_ref ← require d.assessment_ref propose_incomplete
    title ← require d.work_title propose_incomplete
    closure_ref ← require d.closure_ref propose_closure
    raise_if (not (opt_eq (some closure_ref) st.active_closure_ref)) propose_closure
    found ← reads (get_closure st.id closure_ref)
    c ← require found closure_unavailable
    effect ← require (effect_of d.effect_class) invalid_effect_class
    raise_if (not (same_effect effect c.effect_class)) propose_effect
    raise_if (not (subset d.requested_capabilities c.requested_capabilities)) propose_capabilities
    definition ← reads (current_definition env responsibility_ref)
    id ← draw_id env "resp"
    created ← utcnow env
    now ← utcnow env
    saved ←
        propose env
          (work_proposal id created responsibility_ref definition.version assessment_ref subject_ref
            title d c)
          now
    record_event env st.id (work_handed_off d.id c.id (id_of saved) responsibility_ref)
    transition env st d waiting (some (id_of saved)) (record unchanged {
      work_proposal_ref = some (some (id_of saved));
      last_result_ref = some (some (id_of saved));
    })

  module _ (invoke : CapabilityRequest → M CapabilityResult) where
    -- `_invoke_capability`
    unfoldable pub invoke_and_resume : ControllerState → ControllerDecision → M ControllerState
    unfolding record_state record_event
    invoke_and_resume st d = do
      capability ← require d.capability no_capability
      request_id ← draw_id env "request"
      now ← utcnow env
      let pending = awaiting st d request_id now
      record_state env pending
      result ← invoke (capability_request st d request_id capability)
      event ← record_event env st.id (result_observed d.id request_id st.version result)
      later ← utcnow env
      let next = resumed pending event.id later
      record_state env next
      pure next

    abbrev pub perform :
        ControllerDecisionKind → ControllerState → ControllerDecision → M ControllerState
    perform invoke_capability st d = invoke_and_resume st d
    perform form_closure st d = form env st d
    perform propose_work st d = hand_off st d
    perform assess_revision st d = assess env st d
    perform close st d = transition env st d closed none unchanged
    perform reopen st d =
        transition env st d open_ none
          (record unchanged { active_closure_ref = some none; work_proposal_ref = some none })
    perform wait st d = transition env st d waiting (some d.id) unchanged

    unfoldable pub apply : ControllerDecision → M ControllerState
    unfolding require_current record_decision invoke_and_resume hand_off form assess transition
    apply d = do st ← reads (require_current d); record_decision env d; perform d.kind st d

    -- `policy_ref` and `select` are those of the policy.
    unfoldable pub step :
        String → (ControllerState → M ControllerDecision) → String → M ControllerState
    unfolding get strip is_blank apply
    step policy_ref select id = do
      found ← reads (get id)
      st ← require found unknown_controller
      raise_if (is_blank policy_ref) blank_policy
      d ← select st
      raise_if (not (d.controller_ref == st.id)) policy_controller
      raise_if (not (eqb d.state_version st.version)) policy_stale
      apply (record d { policy_ref = some (strip policy_ref) })
