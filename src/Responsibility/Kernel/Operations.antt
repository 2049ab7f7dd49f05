-- ===== src/Responsibility/Kernel/Operations.antt =====
-- responsibility/service.py: the operations that define and direct a responsibility.
use portable_runtime.Base.{ℕ, Bool, false, not, Option, none, some, ◌==◌, eqb, ltb, is_some}
use portable_runtime.Base.Text.{is_blank}
use portable_runtime.Base.Result.{ok}
use portable_runtime.Responsibility.Models.{
  ResponsibilityObject, standing, admission, revision, lifecycle, expectation, proposal, priority,
  active, discharged, StandingResponsibility, ResponsibilityAdmission, ResponsibilityRevision,
  ResponsibilityLifecycleTransition, ResponsibilityExpectation, WorkProposal, PriorityJudgment,
}
use portable_runtime.Journal.{Env, M, pure, raise_if, reads, transaction, ◌>>=◌, ◌>>◌}
use portable_runtime.Journal.Errors.{
  admission_binding, admission_version, admission_principal, responsibility_exists, revision_stale,
  revision_discharged, transition_stale, transition_from_status, expectation_inactive,
  expectation_stale, proposal_inactive, proposal_historical, assessment_foreign, assessment_stale,
  assessment_not_fresh, proposal_not_fresh, judgment_policy,
}
use portable_runtime.Responsibility.Kernel.Objects.{get, save, save_append_only}
use portable_runtime.Responsibility.Kernel.History.{
  as_assessment, as_proposal, same_status, get_as, current_definition, current_status,
}

-- `limit is not None and now > limit`
abbrev pub is_over : Option ℕ → ℕ → Bool
is_over none now = false
is_over (some limit) now = ltb limit now

module _ (env : Env) where
  unfoldable pub register :
      StandingResponsibility → ResponsibilityAdmission → M StandingResponsibility
  unfolding get save save_append_only transaction is_blank
  register identity a = do
    raise_if (not (a.responsibility_ref == identity.id)) admission_binding
    raise_if (not (eqb a.responsibility_version 1)) admission_version
    raise_if (is_blank a.principal_ref) admission_principal
    transaction (do
      existing ← reads (λ s. ok (get env identity.id s))
      raise_if (is_some existing) responsibility_exists
      save env (standing identity)
      save_append_only env (admission a)
      pure identity)

  unfoldable pub revise : ResponsibilityRevision → M ResponsibilityObject
  unfolding current_definition current_status save_append_only
  revise r = do
    current ← reads (current_definition env r.responsibility_ref)
    raise_if (not (eqb r.from_version current.version)) revision_stale
    status ← reads (current_status env r.responsibility_ref)
    raise_if (same_status status discharged) revision_discharged
    save_append_only env (revision r)

  unfoldable pub transition : ResponsibilityLifecycleTransition → M ResponsibilityObject
  unfolding current_definition current_status save_append_only
  transition t = do
    current ← reads (current_definition env t.responsibility_ref)
    raise_if (not (eqb t.responsibility_version current.version)) transition_stale
    status ← reads (current_status env t.responsibility_ref)
    raise_if (not (same_status t.from_status status)) transition_from_status
    save_append_only env (lifecycle t)

  unfoldable pub create_expectation : ResponsibilityExpectation → M ResponsibilityObject
  unfolding current_definition current_status save_append_only
  create_expectation e = do
    current ← reads (current_definition env e.responsibility_ref)
    status ← reads (current_status env e.responsibility_ref)
    raise_if (not (same_status status active)) expectation_inactive
    raise_if (not (eqb e.responsibility_version current.version)) expectation_stale
    save_append_only env (expectation e)

  unfoldable pub propose : WorkProposal → ℕ → M ResponsibilityObject
  unfolding current_definition current_status get_as save_append_only
  propose p now = do
    current ← reads (current_definition env p.responsibility_ref)
    status ← reads (current_status env p.responsibility_ref)
    raise_if (not (same_status status active)) proposal_inactive
    raise_if (not (eqb p.responsibility_version current.version)) proposal_historical
    a ← reads (get_as env as_assessment p.assessment_ref)
    raise_if (not (a.responsibility_ref == p.responsibility_ref)) assessment_foreign
    raise_if (not (eqb a.responsibility_version current.version)) assessment_stale
    raise_if (is_over a.fresh_until now) assessment_not_fresh
    raise_if (is_over p.fresh_until now) proposal_not_fresh
    save_append_only env (proposal p)

  unfoldable pub record_priority_judgment : PriorityJudgment → M ResponsibilityObject
  unfolding get_as save_append_only is_blank
  record_priority_judgment j = do
    reads (get_as env as_proposal j.proposal_ref)
    raise_if (is_blank j.policy_ref) judgment_policy
    save_append_only env (priority j)
