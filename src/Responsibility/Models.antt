-- ===== src/Responsibility/Models.antt =====
-- responsibility/models.py: the durable objects of persistent responsibility. A `dict` of an object is
-- the list of its entries in the order of the keys, a `datetime` a number.
pub mod Equality
pub mod Resources
use portable_runtime.Base.{ℕ, String, Bool, Option, List}
use Resources.{ResourceVector}

pub data ResponsibilityStatus : Type 0 where
  active suspended discharged : ResponsibilityStatus

pub data EffectClass : Type 0 where
  read_only internal_reversible external_effect : EffectClass

pub data ReservationReleaseKind : Type 0 where
  released expired preempted : ReservationReleaseKind

pub data ExpectationResolutionKind : Type 0 where
  satisfied cancelled : ExpectationResolutionKind

abbrev pub Scope : Type 0
Scope = List (String × String)

pub record StandingResponsibility : Type 0 where
  pub id : String
  pub created_at : ℕ
  pub responsibility_kind : String
  pub statement : String
  pub scope : Scope
  pub schema_version : String

pub record ResponsibilityAdmission : Type 0 where
  pub id : String
  pub created_at : ℕ
  pub responsibility_ref : String
  pub responsibility_version : ℕ
  pub principal_ref : String
  pub basis_refs : List String
  pub admitted_at : ℕ

pub record ResponsibilityRevision : Type 0 where
  pub id : String
  pub created_at : ℕ
  pub responsibility_ref : String
  pub from_version : ℕ
  pub to_version : ℕ
  pub statement : String
  pub scope : Scope
  pub basis_refs : List String
  pub reason : String

pub record ResponsibilityLifecycleTransition : Type 0 where
  pub id : String
  pub created_at : ℕ
  pub responsibility_ref : String
  pub responsibility_version : ℕ
  pub from_status : ResponsibilityStatus
  pub to_status : ResponsibilityStatus
  pub basis_refs : List String
  pub decision_ref : Option String
  pub authority_ref : Option String
  pub applied_at : ℕ
  pub reason : String

pub record ResponsibilityExpectation : Type 0 where
  pub id : String
  pub created_at : ℕ
  pub responsibility_ref : String
  pub responsibility_version : ℕ
  pub subject_ref : String
  pub expected_signal_kind : String
  pub due_at : ℕ
  pub recurrence_seconds : Option ℕ
  pub freshness_window_seconds : Option ℕ
  pub source_requirement : Option String

pub record ResponsibilityExpectationResolution : Type 0 where
  pub id : String
  pub created_at : ℕ
  pub expectation_ref : String
  pub responsibility_ref : String
  pub resolution : ExpectationResolutionKind
  pub basis_refs : List String
  pub resolved_at : ℕ

pub record ResponsibilityAssessment : Type 0 where
  pub id : String
  pub created_at : ℕ
  pub responsibility_ref : String
  pub responsibility_version : ℕ
  pub subject_ref : String
  pub assessment_kind : String
  pub basis_refs : List String
  pub assessed_at : ℕ
  pub fresh_until : Option ℕ
  pub rationale : String

pub record WorkProposal : Type 0 where
  pub id : String
  pub created_at : ℕ
  pub responsibility_ref : String
  pub responsibility_version : ℕ
  pub assessment_ref : String
  pub subject_ref : String
  pub work_kind : String
  pub title : String
  pub description : String
  pub requested_resources : ResourceVector
  pub requested_capabilities : List String
  pub expected_result : String
  pub stop_conditions : List String
  pub escalation_conditions : List String
  pub effect_class : EffectClass
  pub fresh_until : Option ℕ

pub record PriorityDimensions : Type 0 where
  pub urgency : ℕ
  pub impact : ℕ
  pub risk : ℕ
  pub reversibility : ℕ
  pub confidence : ℕ
  pub resource_cost : ℕ
  pub human_attention_cost : ℕ

pub record PriorityJudgment : Type 0 where
  pub id : String
  pub created_at : ℕ
  pub proposal_ref : String
  pub dimensions : PriorityDimensions
  pub policy_ref : String
  pub admitted : Bool
  pub rationale : String

pub record ResourcePool : Type 0 where
  pub id : String
  pub created_at : ℕ
  pub pool_key : String
  pub capacity : ResourceVector
  pub policy_ref : String

pub record PortfolioAdmissionDecision : Type 0 where
  pub id : String
  pub created_at : ℕ
  pub proposal_ref : String
  pub resource_pool_ref : String
  pub policy_ref : String
  pub admitted : Bool
  pub rationale : String

pub record ResourceReservation : Type 0 where
  pub id : String
  pub created_at : ℕ
  pub responsibility_ref : String
  pub proposal_ref : String
  pub resource_pool_ref : String
  pub resources : ResourceVector
  pub reserved_at : ℕ
  pub expires_at : Option ℕ

pub record ResourceReservationRelease : Type 0 where
  pub id : String
  pub created_at : ℕ
  pub reservation_ref : String
  pub responsibility_ref : String
  pub release_kind : ReservationReleaseKind
  pub released_at : ℕ
  pub reason : String

pub record Commitment : Type 0 where
  pub id : String
  pub created_at : ℕ
  pub responsibility_ref : String
  pub responsibility_version : ℕ
  pub proposal_ref : String
  pub priority_judgment_ref : String
  pub portfolio_admission_ref : String
  pub reservation_ref : String
  pub resources : ResourceVector
  pub committed_at : ℕ
  pub stop_conditions : List String
  pub escalation_conditions : List String

-- The objects that the model's operations write. The session, context and handoff objects are left out.
pub data ResponsibilityObject : Type 0 where
  standing : StandingResponsibility → ResponsibilityObject
  admission : ResponsibilityAdmission → ResponsibilityObject
  revision : ResponsibilityRevision → ResponsibilityObject
  lifecycle : ResponsibilityLifecycleTransition → ResponsibilityObject
  expectation : ResponsibilityExpectation → ResponsibilityObject
  resolution : ResponsibilityExpectationResolution → ResponsibilityObject
  assessment : ResponsibilityAssessment → ResponsibilityObject
  proposal : WorkProposal → ResponsibilityObject
  priority : PriorityJudgment → ResponsibilityObject
  pool : ResourcePool → ResponsibilityObject
  portfolio : PortfolioAdmissionDecision → ResponsibilityObject
  reservation : ResourceReservation → ResponsibilityObject
  release : ResourceReservationRelease → ResponsibilityObject
  commitment : Commitment → ResponsibilityObject
