-- ===== src/Policies/Permission.antt =====
-- When `PolicyEngine.evaluate` allows.
use portable_runtime.Base.{
  ◌≡◌, refl, inl, inr, Bool, false, Bool-cases, none, some, List, [], ◌∷◌, All, non_empty, arith,
}
use portable_runtime.Policies.Models.{Obligation, allow, allowed, PolicyDecision}
use portable_runtime.Policies.Engine.{
  is_deny, is_defer, asks, first, required_of, all_allow, combine,
}

-- The decision lets the action through, without anything more.
abbrev pub Permits : PolicyDecision → Type 0
Permits d = (d.disposition ≡ some allow) × (d.status ≡ some allowed)

-- No decision denies, defers, or asks for an approval or a verification, and none requires anything.
abbrev pub IsUnopposed : List PolicyDecision → Type 0
IsUnopposed ds =
    All (λ d. (is_deny d ≡ false) × (is_defer d ≡ false) × (asks d ≡ false)) ds
    × (required_of ds ≡ [])

pub first-none :
    (test : PolicyDecision → Bool) (ds : List PolicyDecision)
    → first test ds ≡ none
    → All (λ d. test d ≡ false) ds
first-none test [] h = tt
first-none test (d ∷ ds) h = elim (Bool-cases (test d)) [
  | inl e ↦ absurd (ground arith)
  | inr e ↦ (e, first-none test ds (ground arith))
]

pub empty_of : (os : List Obligation) → non_empty os ≡ false → os ≡ []
empty_of [] h = refl
empty_of (o ∷ os) h = cc

-- `combine` where nothing is required.
pub combine-none :
    (ds : List PolicyDecision)
    → non_empty (required_of ds) ≡ false
    → combine ds ≡ (elim (first asks ds) [ some d ↦ d | none ↦ all_allow ])
unfolding combine
combine-none ds h = rw h
