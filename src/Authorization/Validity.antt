-- ===== src/Authorization/Validity.antt =====
-- `validate_grant` and `is_authorized_for`, which the program writes out apart, agree.
use portable_runtime.Base.{
  ℕ, String, ◌≡◌, refl, ◌≢◌, true, false, List, [], ◌∷◌, arith, eq_iff, All, not, ◌&&◌, ◌==◌,
  is_some, non_empty, Bool-cases, Option-cases, inl, inr,
}
use portable_runtime.Base.Text.{CaseMapping, is_blank, strip}
use portable_runtime.Authorization.Models.{TypedCondition, Request, AuthorizationGrant}
use portable_runtime.Authorization.Match.{effect_level, capability_matches}
use portable_runtime.Authorization.Check.{
  is_authorized_for, validate_grant, is_grant_valid, unsatisfied_conditions,
}
use portable_runtime.Authorization.Bounds.{is_authorized_for_iff, WithinCeiling}

no_unsatisfied :
    (tcs : List TypedCondition)
    → All (λ tc. tc.satisfied ≡ true) tcs
    → unsatisfied_conditions tcs ≡ []
unfolding unsatisfied_conditions
no_unsatisfied [] h = refl
no_unsatisfied (tc ∷ tcs) h = rw (h.0, no_unsatisfied tcs h.1)

not_blank_ne : (s : String) → is_blank s ≡ false → (s == "") ≡ false
unfolding is_blank strip
not_blank_ne s h = elim (Bool-cases (s == "")) [
  | inl e ↦ let k : is_blank "" ≡ false = rw ((eq_iff s "").0 e) at h in cc
  | inr e ↦ e
]

module _ (c : CaseMapping) where
  some_capability :
      (allowed : List String) (x : String)
      → capability_matches c allowed x ≡ true
      → non_empty allowed ≡ true
  unfolding capability_matches
  some_capability [] x h = cc
  some_capability (_ ∷ _) x h = refl

  known_ceiling :
      (g : AuthorizationGrant) (a : Request)
      → WithinCeiling c g.effect_ceiling a.effect_class
      → (is_some g.effect_ceiling && not (is_some (effect_level c g.effect_ceiling))) ≡ false
  known_ceiling g a h = elim (Option-cases g.effect_ceiling) [
    | inl e ↦ ground arith
    | inr (x, e) ↦ ground arith
  ]

  -- A grant with a principal that authorizes some request at an instant is valid at that instant:
  -- `validate_grant` finds no error in it.
  pub authorized_grant_valid :
      (a : Request) (g : AuthorizationGrant) (now : ℕ)
      → g.principal_ref ≢ ""
      → is_authorized_for c a g now ≡ true
      → (validate_grant c g now ≡ []) × (is_grant_valid c g now ≡ true)
  unfolding validate_grant is_grant_valid
  authorized_grant_valid a g now p h =
      let (live, conditions, named, cap, res, actor, ceiling, versions) =
        (is_authorized_for_iff c a g now).0 h in
      ground (
        arith,
        eq_iff g.principal_ref "",
        not_blank_ne a.actor_ref,
        some_capability g.allowed_capabilities a.capability,
        known_ceiling g a,
        no_unsatisfied g.typed_conditions,
      )
