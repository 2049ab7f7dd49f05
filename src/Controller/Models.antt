-- ===== src/Controller/Models.antt =====
-- controller/models.py, closure.py, revision.py and handoff.py. A validator of the source is a test
-- here; the texts of its errors are left out.
pub mod Handoff
use portable_runtime.Base.{
  ℕ, String, Bool, true, false, not, ◌&&◌, ◌||◌, Option, none, some, List, ◌==◌, eqb, non_empty,
  is_some, if◌then◌else◌,
}
use portable_runtime.Base.Text.{is_blank}
use portable_runtime.Responsibility.Models.{EffectClass, Scope}
use Handoff.{CognitiveHandoffEnvelope}

pub data ControllerStatus : Type 0 where
  open_ waiting closed reopen_required : ControllerStatus

pub data ControllerDecisionKind : Type 0 where
  invoke_capability form_closure propose_work assess_revision close reopen wait :
      ControllerDecisionKind

pub data RevisionScope : Type 0 where
  execution work_spec decision representation inputs evidence_acquisition verification goal
        authorization problem_definition :
      RevisionScope

pub data RevisionDisposition : Type 0 where
  retry_run revise_work reopen_cognition acquire_evidence request_authorization reconcile_effect
        wait_ close_ :
      RevisionDisposition

pub record CognitiveClosure : Type 0 where
  pub id : String
  pub controller_ref : String
  pub controller_state_version : ℕ
  pub responsibility_ref : Option String
  pub subject_ref : Option String
  pub problem_ref : Option String
  pub scope : Scope
  pub basis_refs : List String
  pub selected_candidate_refs : List String
  pub deferred_candidate_refs : List String
  pub rejected_candidate_refs : List String
  pub deferred_issue_refs : List String
  pub selected_direction : String
  pub rationale : String
  pub acceptance_criteria : List String
  pub verification_plan : List String
  pub stop_conditions : List String
  pub escalation_conditions : List String
  pub reopen_conditions : List String
  pub requested_capabilities : List String
  pub effect_class : EffectClass
  pub policy_ref : Option String
  pub handoff : CognitiveHandoffEnvelope
  pub created_at : ℕ

-- `_structurally_closed`
unfoldable pub is_structurally_closed : CognitiveClosure → Bool
is_structurally_closed c =
    not (is_blank c.selected_direction)
    && non_empty c.basis_refs
    && non_empty c.acceptance_criteria
    && non_empty c.verification_plan
    && non_empty c.reopen_conditions

pub record RevisionAssessment : Type 0 where
  pub id : String
  pub controller_ref : String
  pub controller_state_version : ℕ
  pub work_ref : String
  pub closure_ref : String
  pub run_ref : Option String
  pub outcome_refs : List String
  pub verification_refs : List String
  pub reason_refs : List String
  pub failure_class : String
  pub revision_scope : RevisionScope
  pub recommended_disposition : RevisionDisposition
  pub reason : String
  pub carry_forward_refs : List String
  pub reconsider_refs : List String
  pub invalidated_refs : List String
  pub unresolved_refs : List String
  pub policy_ref : Option String
  pub handoff : CognitiveHandoffEnvelope
  pub created_at : ℕ

-- The tests of `_grounded_revision` that join a disposition and a scope.
abbrev pub scope_allows : RevisionDisposition → RevisionScope → Bool
scope_allows reconcile_effect execution = true
scope_allows reconcile_effect _ = false
scope_allows request_authorization authorization = true
scope_allows request_authorization _ = false
scope_allows retry_run execution = true
scope_allows retry_run work_spec = true
scope_allows retry_run decision = true
scope_allows retry_run _ = false
scope_allows _ _ = true

abbrev pub closes : RevisionDisposition → Bool
closes close_ = true
closes _ = false

-- `_grounded_revision`
unfoldable pub is_grounded : RevisionAssessment → Bool
is_grounded r =
    not (is_blank r.work_ref)
    && not (is_blank r.closure_ref)
    && not (is_blank r.reason)
    && (non_empty r.outcome_refs || non_empty r.verification_refs)
    && (not (closes r.recommended_disposition) || non_empty r.verification_refs)
    && scope_allows r.recommended_disposition r.revision_scope

pub record ControllerState : Type 0 where
  pub id : String
  pub responsibility_ref : Option String
  pub subject_ref : Option String
  pub context_refs : List String
  pub candidate_refs : List String
  pub open_issue_refs : List String
  pub status : ControllerStatus
  pub version : ℕ
  pub pending_ref : Option String
  pub active_closure_ref : Option String
  pub work_proposal_ref : Option String
  pub last_revision_ref : Option String
  pub last_decision_ref : Option String
  pub last_result_ref : Option String
  pub created_at : ℕ
  pub updated_at : ℕ

abbrev pub pending_allowed : ControllerStatus → Option String → Bool
pending_allowed waiting none = false
pending_allowed waiting (some ref) = not (ref == "")
pending_allowed _ pending = not (is_some pending)

-- `_valid_state`
unfoldable pub is_valid_state : ControllerState → Bool
is_valid_state s = pending_allowed s.status s.pending_ref

pub record ControllerDecision : Type 0 where
  pub id : String
  pub controller_ref : String
  pub state_version : ℕ
  pub kind : ControllerDecisionKind
  pub reason : String
  pub policy_ref : Option String
  pub capability : Option String
  pub instruction : Option String
  pub parameters : Scope
  pub constraints : Scope
  pub closure : Option CognitiveClosure
  pub closure_ref : Option String
  pub assessment_ref : Option String
  pub work_kind : String
  pub work_title : Option String
  pub work_description : String
  pub requested_capabilities : List String
  pub expected_result : String
  pub stop_conditions : List String
  pub escalation_conditions : List String
  pub effect_class : String
  pub revision : Option RevisionAssessment

abbrev pub has_text : Option String → Bool
has_text none = false
has_text (some s) = not (is_blank s)

-- The tests of `_kind_payload` for one kind of decision.
abbrev pub has_payload : ControllerDecisionKind → ControllerDecision → Bool
has_payload invoke_capability d = has_text d.capability
has_payload form_closure d = elim d.closure [
  | none ↦ false
  | some c ↦ c.controller_ref == d.controller_ref && eqb c.controller_state_version d.state_version
]
has_payload propose_work d =
    has_text d.closure_ref
    && has_text d.assessment_ref
    && has_text d.work_title
    && (d.effect_class == "read-only"
        || d.effect_class == "internal-reversible"
        || d.effect_class == "external-effect")
has_payload assess_revision d = elim d.revision [
  | none ↦ false
  | some r ↦ r.controller_ref == d.controller_ref && eqb r.controller_state_version d.state_version
]
has_payload _ d = true

-- `_kind_payload`
unfoldable pub is_valid_decision : ControllerDecision → Bool
is_valid_decision d =
    (elim d.policy_ref [ none ↦ true | some p ↦ not (is_blank p) ]) && has_payload d.kind d
