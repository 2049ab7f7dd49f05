-- ===== src/Policies/Conflict.antt =====
-- The obligations of `_detect_obligation_conflict`: two of one kind with other parameters.
use portable_runtime.Base.{
  ◌≡◌, refl, sym, ap, ◌∙◌, subst, ◌≢◌, ◌⊎◌, inl, inr, ◌↔◌, Bool, true, Bool-cases, not, ◌&&◌, List,
  [], ◌∷◌, ◌++◌, ◌==◌, any, Any, arith, eq_iff, and_left, and_right,
}
use portable_runtime.Policies.Models.{Obligation, PolicyDecision}
use portable_runtime.Policies.Engine.{
  is_require, required_of, same_params, same_key, unique_after, conflicts,
}
use portable_runtime.Policies.Union.{
  Requires, required_of_lem, same_params_self, same_params_eq, unique_after_lem,
}

-- The obligation stands in the list.
abbrev pub IsAmong : Obligation → List Obligation → Type 0
IsAmong o os = Any (λ p. o ≡ p) os

-- The two are of one kind and have other parameters.
abbrev pub Opposes : Obligation → Obligation → Type 0
Opposes a b = (a.kind ≡ b.kind) × (a.params ≢ b.params)

abbrev pub HasConflict : (Obligation → Type 0) → Type 0
HasConflict P = (a : Obligation) × ((b : Obligation) × (P a × P b × Opposes a b))

abbrev against : Obligation → Obligation → Bool
against a b = a.kind == b.kind && not (same_params a.params b.params)

Opposes-of_test : (a b : Obligation) → against a b ≡ true → Opposes a b
Opposes-of_test a b h = (
  (eq_iff a.kind b.kind).0 (and_left (a.kind == b.kind) (not (same_params a.params b.params)) h),
  λ e.
      let same : same_params a.params b.params ≡ true =
        subst (λ q. same_params a.params q ≡ true) e (same_params_self a.params) in
      let apart : not (same_params a.params b.params) ≡ true =
        and_right (a.kind == b.kind) (not (same_params a.params b.params)) h in
      cc,
)

test_of-Opposes : (a b : Obligation) → Opposes a b → against a b ≡ true
test_of-Opposes a b (e, n) =
    let kind : (a.kind == b.kind) ≡ true = (eq_iff a.kind b.kind).1 e in
    elim (Bool-cases (same_params a.params b.params)) [
      | inl k ↦ absurd (n (same_params_eq a.params b.params k))
      | inr k ↦ rw (kind, k)
    ]

found-IsAmong :
    (test : Obligation → Bool) (os : List Obligation)
    → any test os ≡ true
    → (b : Obligation) × (IsAmong b os × (test b ≡ true))
found-IsAmong test [] h = cc
found-IsAmong test (o ∷ os) h = elim (Bool-cases (test o)) [
  | inl e ↦ (o, (inl refl, e))
  | inr e ↦ let (b, (among, k)) = found-IsAmong test os (ground arith) in (b, (inr among, k))
]

any_of :
    (test : Obligation → Bool) (os : List Obligation) (b : Obligation)
    → IsAmong b os
    → test b ≡ true
    → any test os ≡ true
any_of test [] b h k = absurd h
any_of test (o ∷ os) b (inl e) k =
    let here : test o ≡ true = subst (λ x. test x ≡ true) e k in rw here
any_of test (o ∷ os) b (inr h) k = let rest = any_of test os b h k in ground arith

conflict_of : (os : List Obligation) → conflicts os ≡ true → HasConflict (λ o. IsAmong o os)
unfolding conflicts
conflict_of [] h = cc
conflict_of (o ∷ os) h = elim (Bool-cases (any (against o) os)) [
  | inl e ↦
      let (b, (among, k)) = found-IsAmong (against o) os e in
      (o, (b, (inl refl, inr among, Opposes-of_test o b k)))
  | inr e ↦ let (a, (b, (x, y, k))) = conflict_of os (ground arith) in (a, (b, (inr x, inr y, k)))
]

conflicts_of :
    (os : List Obligation) (a b : Obligation)
    → IsAmong a os
    → IsAmong b os
    → Opposes a b
    → conflicts os ≡ true
unfolding conflicts
conflicts_of [] a b h k n = absurd h
conflicts_of (o ∷ os) a b (inl e) (inl f) n =
    absurd (n.1 (ap (λ (x : Obligation). x.params) (e ∙ sym f)))
conflicts_of (o ∷ os) a b (inl e) (inr f) n =
    let here = any_of (against o) os b f (test_of-Opposes o b (subst (λ x. Opposes x b) e n)) in
    rw here
conflicts_of (o ∷ os) a b (inr e) (inl f) n =
    let flipped : Opposes o a = subst (λ x. Opposes x a) f (sym n.0, λ k. n.1 (sym k)) in
    let here = any_of (against o) os a e (test_of-Opposes o a flipped) in rw here
conflicts_of (o ∷ os) a b (inr e) (inr f) n = let rest = conflicts_of os a b e f n in ground arith

kept_of_all :
    (seen os : List Obligation) (o : Obligation) → IsAmong o (unique_after seen os) → IsAmong o os
unfolding unique_after
kept_of_all seen [] o h = absurd h
kept_of_all seen (x ∷ xs) o h = elim (Bool-cases (any (λ p. same_key x p) seen)) [
  | inl e ↦ inr (kept_of_all (x ∷ seen) xs o (rw e at h))
  | inr e ↦
      let k : IsAmong o (x ∷ unique_after (x ∷ seen) xs) = rw e at h in
      elim k [ inl f ↦ inl f | inr f ↦ inr (kept_of_all (x ∷ seen) xs o f) ]
]

-- What is required has a representative of the same kind and parameters that is kept.
represented :
    (os : List Obligation) (o : Obligation)
    → IsAmong o os
    → (p : Obligation) × (IsAmong p (unique_after [] os)
        × (o.kind ≡ p.kind)
        × (o.params ≡ p.params))
unfolding same_key
represented os o h =
    let (p, (among, k)) =
      found-IsAmong (same_key o) (unique_after [] os) (unique_after_lem o [] os h) in
    (
      p,
      (
        among,
        (eq_iff o.kind p.kind).0 (and_left (o.kind == p.kind) (same_params o.params p.params) k),
        same_params_eq o.params p.params
            (and_right (o.kind == p.kind) (same_params o.params p.params) k),
      ),
    )

split-IsAmong :
    (o : Obligation) (xs ys : List Obligation) → IsAmong o (xs ++ ys) → IsAmong o xs ⊎ IsAmong o ys
split-IsAmong o [] ys h = inr h
split-IsAmong o (x ∷ xs) ys (inl e) = inl (inl e)
split-IsAmong o (x ∷ xs) ys (inr h) = elim (split-IsAmong o xs ys h) [
  | inl k ↦ inl (inr k)
  | inr k ↦ inr k
]

Requires-of :
    (ds : List PolicyDecision) (o : Obligation) → IsAmong o (required_of ds) → Requires o ds
unfolding required_of
Requires-of [] o h = absurd h
Requires-of (d ∷ ds) o h = elim (Bool-cases (is_require d)) [
  | inl e ↦
      let k : IsAmong o (d.obligations ++ required_of ds) = rw e at h in
      elim (split-IsAmong o d.obligations (required_of ds) k) [
        | inl x ↦ inl (e, x)
        | inr x ↦ inr (Requires-of ds o x)
      ]
  | inr e ↦ inr (Requires-of ds o (rw e at h))
]

-- The test of the program on the obligations that it kept, against what the decisions require.
pub conflicts_iff :
    (ds : List PolicyDecision)
    → (conflicts (unique_after [] (required_of ds)) ≡ true) ↔ HasConflict (λ o. Requires o ds)
conflicts_iff ds = (
  λ h.
      let (a, (b, (x, y, n))) = conflict_of (unique_after [] (required_of ds)) h in
      (
        a,
        (
          b,
          (
            Requires-of ds a (kept_of_all [] (required_of ds) a x),
            Requires-of ds b (kept_of_all [] (required_of ds) b y),
            n,
          ),
        ),
      ),
  λ h.
      let (a, (b, (x, y, (kind, params)))) = h in
      let (p, (among_p, kind_p, params_p)) =
        represented (required_of ds) a (required_of_lem a ds x) in
      let (q, (among_q, kind_q, params_q)) =
        represented (required_of ds) b (required_of_lem b ds y) in
      conflicts_of (unique_after [] (required_of ds)) p q among_p among_q
        (sym kind_p ∙ kind ∙ kind_q, λ e. params (params_p ∙ e ∙ sym params_q)),
)
