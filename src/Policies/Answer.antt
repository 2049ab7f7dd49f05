-- ===== src/Policies/Answer.antt =====
-- The answer of `PolicyEngine.evaluate` against the decisions that it is made of.
use portable_runtime.Base.{
  ◌≡◌, refl, inl, inr, Bool, true, Bool-cases, Option, none, some, List, [], ◌∷◌, arith,
}
use portable_runtime.Policies.Models.{PolicyDecision}
use portable_runtime.Policies.Engine.{is_deny, is_defer, first, combine, synced, evaluate}

pub first_lem :
    (test : PolicyDecision → Bool) (ds : List PolicyDecision) (d : PolicyDecision)
    → first test ds ≡ some d
    → test d ≡ true
first_lem test [] d h = cc
first_lem test (x ∷ xs) d h = elim (Bool-cases (test x)) [
  | inl e ↦ let same : some x ≡ some d = ground arith in cc (same, e)
  | inr e ↦ first_lem test xs d (ground arith)
]

-- The values of `evaluate`.
pub data Cases (ds : List PolicyDecision) (answer : PolicyDecision) : Type 0 where
  by_deny : first is_deny ds ≡ some answer → Cases ds answer
  by_defer : first is_deny ds ≡ none → first is_defer ds ≡ some answer → Cases ds answer
  combined :
      first is_deny ds ≡ none → first is_defer ds ≡ none → answer ≡ combine ds → Cases ds answer

by_values :
    (ds : List PolicyDecision) (a b : Option PolicyDecision)
    → first is_deny ds ≡ a
    → first is_defer ds ≡ b
    → Cases ds (elim a [ some d ↦ d | none ↦ elim b [ some d ↦ d | none ↦ combine ds ] ])
by_values ds (some d) b e f = by_deny e
by_values ds none (some d) e f = by_defer e f
by_values ds none none e f = combined e f refl

pub evaluate-Cases : (answers : List PolicyDecision) → Cases (synced answers) (evaluate answers)
unfolding evaluate
evaluate-Cases answers =
    let ds = synced answers in by_values ds (first is_deny ds) (first is_defer ds) refl refl
