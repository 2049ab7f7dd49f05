-- ===== src/Policies/Denial.antt =====
-- When `PolicyEngine.evaluate` denies.
use portable_runtime.Base.{
  String, ◌≡◌, refl, sym, ◌∙◌, ◌↔◌, ◌⊎◌, Any, Any-of_any, any_of_Any, subst, inl, inr, Bool, true,
  false, Bool-cases, not, ◌&&◌, ◌||◌, Option, none, some, List, [], ◌∷◌, any, All, non_empty, arith,
}
use portable_runtime.Policies.Models.{Obligation, has_kind, PolicyDecision}
use portable_runtime.Policies.Engine.{
  is_deny, is_defer, asks, first, required_of, unique_after, conflicts, all_allow, require_decision,
  reasons_of, refs_of, combine, synced, evaluate,
}
use portable_runtime.Policies.Answer.{first_lem, Cases, by_deny, by_defer, combined, evaluate-Cases}
use portable_runtime.Policies.Union.{Requires}
use portable_runtime.Policies.Conflict.{HasConflict, conflicts_iff}
use portable_runtime.Policies.Permission.{first-none, empty_of, combine-none}

-- Some decision denies, or none defers and the test of conflicts finds one.
abbrev is_denied_by : List PolicyDecision → Bool
is_denied_by ds =
    any is_deny ds || (not (any is_defer ds) && conflicts (unique_after [] (required_of ds)))

any-first :
    (test : PolicyDecision → Bool) (ds : List PolicyDecision) (d : PolicyDecision)
    → first test ds ≡ some d
    → any test ds ≡ true
any-first test [] d h = cc
any-first test (x ∷ xs) d h = elim (Bool-cases (test x)) [
  | inl e ↦ rw e
  | inr e ↦ let rest = any-first test xs d (ground arith) in ground arith
]

any-none :
    (test : PolicyDecision → Bool) (ds : List PolicyDecision)
    → first test ds ≡ none
    → any test ds ≡ false
any-none test [] h = refl
any-none test (x ∷ xs) h = elim (Bool-cases (test x)) [
  | inl e ↦ absurd (ground arith)
  | inr e ↦ let rest = any-none test xs (ground arith) in ground arith
]

-- What holds of all decisions holds of the first that is found.
found_in :
    (P : PolicyDecision → Type 0) (test : PolicyDecision → Bool) (ds : List PolicyDecision)
    (d : PolicyDecision)
    → first test ds ≡ some d
    → All P ds
    → P d
found_in P test [] d h k = cc
found_in P test (x ∷ xs) d h (p, ps) = elim (Bool-cases (test x)) [
  | inl e ↦ let same : some x ≡ some d = ground arith in let it : x ≡ d = cc same in subst P it p
  | inr e ↦ found_in P test xs d (ground arith) ps
]

found_denies :
    (ds : List PolicyDecision) (o : Option PolicyDecision)
    → first asks ds ≡ o
    → All (λ d. is_deny d ≡ false) ds
    → is_deny (elim o [ some d ↦ d | none ↦ all_allow ]) ≡ false
found_denies ds (some d) e h = found_in (λ d. is_deny d ≡ false) asks ds d e h
found_denies ds none e h = refl

require_denies :
    (os : List Obligation) (rs ps : List String) → is_deny (require_decision os rs ps) ≡ false
require_denies os rs ps = elim (Bool-cases (has_kind "approval" os)) [ inl e ↦ rw e | inr e ↦ rw e ]

combine_denies :
    (ds : List PolicyDecision)
    → All (λ d. is_deny d ≡ false) ds
    → is_deny (combine ds) ≡ conflicts (unique_after [] (required_of ds))
unfolding combine unique_after conflicts
combine_denies ds h = elim (Bool-cases (non_empty (required_of ds))) [
  | inl e ↦ elim (Bool-cases (conflicts (unique_after [] (required_of ds)))) [
    | inl k ↦ rw (e, k)
    | inr k ↦
        rw (e, k) (require_denies (unique_after [] (required_of ds)) (reasons_of ds) (refs_of ds))
  ]
  | inr e ↦
      rw (combine-none ds e, empty_of (required_of ds) e) (found_denies ds (first asks ds) refl h)
]

denied_in :
    (ds : List PolicyDecision) (answer : PolicyDecision)
    → Cases ds answer
    → is_deny answer ≡ is_denied_by ds
denied_in ds answer (by_deny e) =
    let denies = first_lem is_deny ds answer e in
    let some_denies = any-first is_deny ds answer e in ground arith
denied_in ds answer (by_defer e f) =
    let quiet = found_in (λ d. is_deny d ≡ false) is_defer ds answer f (first-none is_deny ds e) in
    let none_denies = any-none is_deny ds e in
    let some_defers = any-first is_defer ds answer f in rw (quiet, none_denies, some_defers)
denied_in ds answer (combined e f g) =
    let none_denies = any-none is_deny ds e in
    let none_defers = any-none is_defer ds f in
    rw (g, none_denies, none_defers) (combine_denies ds (first-none is_deny ds e))

-- A decision denies, or none defers and two obligations that decisions require are of one kind and have
-- other parameters.
abbrev pub IsDenied : List PolicyDecision → Type 0
IsDenied ds =
    Any (λ d. is_deny d ≡ true) ds
    ⊎ All (λ d. is_defer d ≡ false) ds × HasConflict (λ o. Requires o ds)

all_of_not_any :
    (test : PolicyDecision → Bool) (ds : List PolicyDecision)
    → any test ds ≡ false
    → All (λ d. test d ≡ false) ds
all_of_not_any test [] h = tt
all_of_not_any test (d ∷ ds) h = (ground arith, all_of_not_any test ds (ground arith))

not_any_of_all :
    (test : PolicyDecision → Bool) (ds : List PolicyDecision)
    → All (λ d. test d ≡ false) ds
    → any test ds ≡ false
not_any_of_all test [] h = refl
not_any_of_all test (d ∷ ds) (e, h) = let rest = not_any_of_all test ds h in rw (e, rest)

IsDenied-iff : (ds : List PolicyDecision) → (is_denied_by ds ≡ true) ↔ IsDenied ds
IsDenied-iff ds = (
  λ h. elim (Bool-cases (any is_deny ds)) [
    | inl e ↦ inl (Any-of_any is_deny (λ d. is_deny d ≡ true) (λ d k. k) ds e)
    | inr e ↦ inr (all_of_not_any is_defer ds (ground arith), (conflicts_iff ds).0 (ground arith))
  ],
  λ h. elim h [
    | inl e ↦
        let denies = any_of_Any is_deny (λ d. is_deny d ≡ true) (λ d k. k) ds e in ground arith
    | inr e ↦
        let none_defers = not_any_of_all is_defer ds e.0 in
        let conflicting = (conflicts_iff ds).1 e.1 in ground arith
  ],
)

-- `evaluate` denies exactly if a decision, once validated, denies, or if none defers and two obligations
-- that decisions require are of one kind and have other parameters.
pub evaluate-IsDenied :
    (answers : List PolicyDecision)
    → (is_deny (evaluate answers) ≡ true) ↔ IsDenied (synced answers)
evaluate-IsDenied answers =
    let same = denied_in (synced answers) (evaluate answers) (evaluate-Cases answers) in
    let split = IsDenied-iff (synced answers) in
    (λ h. split.0 (sym same ∙ h), λ h. same ∙ split.1 h)
