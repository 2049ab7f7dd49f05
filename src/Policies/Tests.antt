-- ===== src/Policies/Tests.antt =====
-- The policy engine on concrete decisions.
use portable_runtime.Base.{String, ◌≡◌, refl, ◌↔◌, true, false, none, some, List, [], ◌∷◌}
use portable_runtime.Policies.Models.{
  Obligation, require, Status, allowed, require_approval, require_verification, PolicyDecision,
  approval_obligation, sync,
}
use portable_runtime.Policies.Engine.{
  is_deny, synced, evaluate, requires_approval, requires_verification, combine, same_params,
}
use portable_runtime.Policies.Denial.{IsDenied, evaluate-IsDenied}

abbrev of_status : Status → PolicyDecision
of_status status = record {
  disposition = none;
  obligations = [];
  reason_refs = [];
  policy_refs = [];
  status = some status;
  reason = none;
}

abbrev of_obligation : Obligation → PolicyDecision
of_obligation o = record {
  disposition = some require;
  obligations = o ∷ [];
  reason_refs = "because" ∷ [];
  policy_refs = "policy" ∷ [];
  status = none;
  reason = none;
}

abbrev approval_of : String → Obligation
approval_of role = record {
  kind = "approval";
  params = ("required_role", role) ∷ [];
  waivable = false;
}

abbrev answers : List PolicyDecision
answers = of_status allowed ∷ of_obligation approval_obligation ∷ []

abbrev conflicting : List PolicyDecision
conflicting = of_obligation approval_obligation ∷ of_obligation (approval_of "auditor") ∷ []

-- A status alone implies its obligation, and asking for an approval is seen.
legacy_status : requires_approval (evaluate (of_status require_approval ∷ [])) ≡ true
unfolding requires_approval evaluate combine sync same_params
legacy_status = refl

legacy_verification : requires_verification (evaluate (of_status require_verification ∷ [])) ≡ true
unfolding requires_verification evaluate combine sync same_params
legacy_verification = refl

-- Two approvals of the same role are one; the second, which must not be waived, is dropped.
unwaivable_lost :
    (evaluate
      (of_obligation approval_obligation ∷ of_obligation (approval_of "owner") ∷ [])).obligations
    ≡ (approval_obligation ∷ [])
unfolding evaluate combine sync same_params
unwaivable_lost = refl

conflict_denies : is_deny (evaluate conflicting) ≡ true
unfolding evaluate combine sync same_params
conflict_denies = refl

evaluate-IsDenied_example : (is_deny (evaluate conflicting) ≡ true) ↔ IsDenied (synced conflicting)
evaluate-IsDenied_example = evaluate-IsDenied conflicting
