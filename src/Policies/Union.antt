-- ===== src/Policies/Union.antt =====
-- The obligations of the answer of `PolicyEngine.evaluate`.
use portable_runtime.Base.{
  String, ◌≡◌, refl, inl, inr, subst, true, Bool-cases, ◌||◌, List, [], ◌∷◌, ◌++◌, any, Any,
  non_empty, arith, eq_iff,
}
use portable_runtime.Policies.Models.{Obligation, PolicyDecision}
use portable_runtime.Policies.Engine.{
  is_require, required_of, same_params, same_key, unique_after, conflicts, combine,
}

-- A decision of the list requires this obligation.
abbrev pub Requires : Obligation → List PolicyDecision → Type 0
Requires o ds = Any (λ d. (is_require d ≡ true) × Any (λ p. o ≡ p) d.obligations) ds

appended_left :
    (o : Obligation) (xs ys : List Obligation) → Any (λ p. o ≡ p) xs → Any (λ p. o ≡ p) (xs ++ ys)
appended_left o [] ys h = absurd h
appended_left o (x ∷ xs) ys (inl e) = inl e
appended_left o (x ∷ xs) ys (inr h) = inr (appended_left o xs ys h)

appended_right :
    (o : Obligation) (xs ys : List Obligation) → Any (λ p. o ≡ p) ys → Any (λ p. o ≡ p) (xs ++ ys)
appended_right o [] ys h = h
appended_right o (x ∷ xs) ys h = inr (appended_right o xs ys h)

pub required_of_lem :
    (o : Obligation) (ds : List PolicyDecision) → Requires o ds → Any (λ p. o ≡ p) (required_of ds)
unfolding required_of
required_of_lem o [] h = absurd h
required_of_lem o (d ∷ ds) (inl (e, h)) = rw e (appended_left o d.obligations (required_of ds) h)
required_of_lem o (d ∷ ds) (inr h) =
    let rest = required_of_lem o ds h in
    elim (Bool-cases (is_require d)) [
      | inl e ↦ rw e (appended_right o d.obligations (required_of ds) rest)
      | inr e ↦ rw e rest
    ]

pub same_params_self : (ps : List (String × String)) → same_params ps ps ≡ true
unfolding same_params
same_params_self [] = refl
same_params_self ((k, v) ∷ ps) = rw ((eq_iff k k).1 refl, (eq_iff v v).1 refl, same_params_self ps)

pub same_params_eq : (ps qs : List (String × String)) → same_params ps qs ≡ true → ps ≡ qs
unfolding same_params
same_params_eq [] [] h = refl
same_params_eq [] (_ ∷ _) h = cc
same_params_eq (_ ∷ _) [] h = cc
same_params_eq ((k, v) ∷ ps) ((j, w) ∷ qs) h =
    let ek = (eq_iff k j).0 (ground arith) in
    let ev = (eq_iff v w).0 (ground arith) in let rest = same_params_eq ps qs (ground arith) in cc

same_key_self : (o : Obligation) → same_key o o ≡ true
unfolding same_key
same_key_self o = rw ((eq_iff o.kind o.kind).1 refl, same_params_self o.params)

same_key_via :
    (a b c : Obligation) → same_key a b ≡ true → same_key b c ≡ true → same_key a c ≡ true
unfolding same_key
same_key_via a b c h k =
    let kind = (eq_iff a.kind b.kind).0 (ground arith) in
    let params = same_params_eq a.params b.params (ground arith) in rw (kind, params) k

any_via :
    (a b : Obligation) (seen : List Obligation)
    → same_key a b ≡ true
    → any (same_key b) seen ≡ true
    → any (same_key a) seen ≡ true
any_via a b [] h k = cc
any_via a b (c ∷ seen) h k = elim (Bool-cases (same_key b c)) [
  | inl e ↦ rw (same_key_via a b c h e)
  | inr e ↦ let rest = any_via a b seen h (ground arith) in ground arith
]

-- An obligation has the key of one that was seen, or of one that is kept.
pub unique_after_lem :
    (o : Obligation) (seen os : List Obligation)
    → Any (λ p. o ≡ p) os
    → (any (same_key o) seen || any (same_key o) (unique_after seen os)) ≡ true
unfolding unique_after
unique_after_lem o seen [] h = absurd h
unique_after_lem o seen (x ∷ xs) (inl e) =
    let self = same_key_self o in
    elim (Bool-cases (any (same_key x) seen)) [
      | inl k ↦ let same = any_via o x seen (subst (λ p. same_key o p ≡ true) e self) k in rw same
      | inr k ↦ let same = subst (λ p. same_key o p ≡ true) e self in ground arith
    ]
unique_after_lem o seen (x ∷ xs) (inr h) =
    let rest = unique_after_lem o (x ∷ seen) xs h in
    elim (Bool-cases (any (same_key x) seen)) [
      | inl k ↦ elim (Bool-cases (same_key o x)) [
        | inl s ↦ let same = any_via o x seen s k in rw same
        | inr s ↦ ground arith
      ]
      | inr k ↦ ground arith
    ]

non_empty_lem : (o : Obligation) (os : List Obligation) → Any (λ p. o ≡ p) os → non_empty os ≡ true
non_empty_lem o [] h = absurd h
non_empty_lem o (x ∷ xs) h = refl

pub combine_lem :
    (o : Obligation) (ds : List PolicyDecision)
    → Requires o ds
    → any (same_key o) (combine ds).obligations ≡ true
unfolding combine
combine_lem o ds h =
    let listed = required_of_lem o ds h in
    let kept = unique_after_lem o [] (required_of ds) listed in
    elim (Bool-cases (conflicts (unique_after [] (required_of ds)))) [
      | inl e ↦ rw (non_empty_lem o (required_of ds) listed, e) kept
      | inr e ↦ rw (non_empty_lem o (required_of ds) listed, e) kept
    ]
