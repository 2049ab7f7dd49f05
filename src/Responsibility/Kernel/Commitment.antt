-- ===== src/Responsibility/Kernel/Commitment.antt =====
-- What an accepted commitment rests on.
use portable_runtime.Base.{ℕ, ◌≤◌, ◌≡◌, refl, Bool, true, false, not, arith, Option, none, some}
use portable_runtime.Base.Result.{Result, ok}
use portable_runtime.Responsibility.Models.{
  Commitment, WorkProposal, PriorityJudgment, PortfolioAdmissionDecision, ResourceReservation,
  ResponsibilityAssessment, active,
}
use portable_runtime.Responsibility.Models.Resources.{ResourceVector}
use portable_runtime.Responsibility.Models.Equality.{ResourceVector-discrete}
use portable_runtime.Journal.{Store, Env, decided}
use portable_runtime.Responsibility.Kernel.History.{
  Definition, as_assessment, as_proposal, as_priority, as_portfolio, as_reservation, get_as,
  current_definition, current_status,
}
use portable_runtime.Responsibility.Kernel.Resources.{same_resources, reservation_released}

-- The limit, if there is one, has not passed.
abbrev pub NotOver : Option ℕ → ℕ → Type 0
NotOver none now = Unit
NotOver (some limit) now = now ≤ limit

pub same_resources-eq : (a b : ResourceVector) → same_resources a b ≡ true → a ≡ b
unfolding same_resources
same_resources-eq a b h = go (ResourceVector-discrete a b) h
  where
    go : (d : Dec (a ≡ b)) → decided d ≡ true → a ≡ b
    go (yes p) k = p
    go (no p) k = cc

pub same_resources_self : (a : ResourceVector) → same_resources a a ≡ true
unfolding same_resources
same_resources_self a = go (ResourceVector-discrete a a)
  where
    go : (d : Dec (a ≡ a)) → decided d ≡ true
    go (yes p) = refl
    go (no p) = absurd (p refl)

-- The objects that a commitment names are in the store and admit it at the instant.
pub record IsGrounded (env : Env) (c : Commitment) (now : ℕ) (s : Store) : Type 0 where
  pub proposal : WorkProposal
  pub judgment : PriorityJudgment
  pub admission : PortfolioAdmissionDecision
  pub reservation : ResourceReservation
  pub assessment : ResponsibilityAssessment
  pub definition : Definition
  pub proposal_found : get_as env as_proposal c.proposal_ref s ≡ ok proposal
  pub judgment_found : get_as env as_priority c.priority_judgment_ref s ≡ ok judgment
  pub admission_found : get_as env as_portfolio c.portfolio_admission_ref s ≡ ok admission
  pub reservation_found : get_as env as_reservation c.reservation_ref s ≡ ok reservation
  pub assessment_found : get_as env as_assessment proposal.assessment_ref s ≡ ok assessment
  pub defined : current_definition env c.responsibility_ref s ≡ ok definition
  pub is_active : current_status env c.responsibility_ref s ≡ ok active
  pub versions :
      (c.responsibility_version ≡ definition.version)
      × (proposal.responsibility_version ≡ definition.version)
  pub owner : proposal.responsibility_ref ≡ c.responsibility_ref
  pub fresh : NotOver proposal.fresh_until now × NotOver assessment.fresh_until now
  pub judged : (judgment.proposal_ref ≡ proposal.id) × (judgment.admitted ≡ true)
  pub admitted : (admission.proposal_ref ≡ proposal.id) × (admission.admitted ≡ true)
  pub reserved :
      (reservation.proposal_ref ≡ proposal.id) × (reservation_released reservation now s ≡ false)
  pub resources :
      (c.resources ≡ proposal.requested_resources) × (c.resources ≡ reservation.resources)

pub passed : (b : Bool) → not b ≡ false → b ≡ true
passed b h = ground arith
