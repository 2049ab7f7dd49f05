-- ===== src/Routing/Selection.antt =====
-- What the router selects: an eligible provider that no other eligible one precedes.
use portable_runtime.Base.{
  ◌≡◌, refl, sym, subst, ◌⊎◌, inl, inr, Bool, true, false, ◌&&◌, Option, none, some, List, [], ◌∷◌,
  if◌then◌else◌, keep, Any, All, All-map, arith, Bool-cases,
}
use portable_runtime.Base.Dict.{Dict}
use portable_runtime.Routing.Models.{
  Priority, from_zero, below_zero, at_least, ProviderDescriptor, CapabilityRequest,
}
use portable_runtime.Routing.Router.{
  TextOrder, matches, key_at_most, best, first_sorted, select_by_priority, eligible, select,
}

at_least_trans :
    (a b c : Priority) → at_least a b ≡ true → at_least b c ≡ true → at_least a c ≡ true
at_least_trans (from_zero a) (from_zero b) (from_zero c) h k = ground arith
at_least_trans (from_zero a) (from_zero b) (below_zero c) h k = refl
at_least_trans (from_zero a) (below_zero b) (from_zero c) h k = ground arith
at_least_trans (from_zero a) (below_zero b) (below_zero c) h k = refl
at_least_trans (below_zero a) (from_zero b) (from_zero c) h k = ground arith
at_least_trans (below_zero a) (from_zero b) (below_zero c) h k = ground arith
at_least_trans (below_zero a) (below_zero b) (from_zero c) h k = ground arith
at_least_trans (below_zero a) (below_zero b) (below_zero c) h k = ground arith

at_least-total : (a b : Priority) → (at_least a b ≡ true) ⊎ (at_least b a ≡ true)
at_least-total (from_zero a) (from_zero b) = ground arith
at_least-total (from_zero a) (below_zero b) = inl refl
at_least-total (below_zero a) (from_zero b) = inr refl
at_least-total (below_zero a) (below_zero b) = ground arith

module _ (order : TextOrder) (request : CapabilityRequest) where
  abbrev Precedes : ProviderDescriptor → ProviderDescriptor → Type 0
  Precedes a b = key_at_most order request a b ≡ true

  key_trans : (a b c : ProviderDescriptor) → Precedes a b → Precedes b c → Precedes a c
  unfolding key_at_most
  key_trans a b c h k = ground (
    arith,
    at_least_trans a.priority b.priority c.priority,
    at_least_trans c.priority a.priority b.priority,
    at_least_trans b.priority c.priority a.priority,
    order.transitive a.id b.id c.id,
  )

  key-total : (a b : ProviderDescriptor) → key_at_most order request a b ≡ false → Precedes b a
  unfolding key_at_most
  key-total a b h = ground (arith, at_least-total a.priority b.priority, order.total a.id b.id)

  key_self : (a : ProviderDescriptor) → Precedes a a
  unfolding key_at_most
  key_self a = ground (arith, at_least-total a.priority a.priority, order.total a.id a.id)

  best_step :
      (x y : ProviderDescriptor) (ys : List ProviderDescriptor)
      → best order request x (y ∷ ys) ≡ (
          if key_at_most order request x y
          then best order request x ys
          else best order request y ys)
  unfolding best
  best_step x y ys = refl

  best-least :
      (x : ProviderDescriptor) (xs : List ProviderDescriptor)
      → All (Precedes (best order request x xs)) (x ∷ xs)
  unfolding best
  best-least x [] = (key_self x, tt)
  best-least x (y ∷ ys) = elim (Bool-cases (key_at_most order request x y)) [
    | inl e ↦
        let (first, rest) = best-least x ys in
        subst (λ b. All (Precedes b) (x ∷ y ∷ ys)) (sym (rw (best_step x y ys, e) refl))
          (first, (key_trans (best order request x ys) x y first e, rest))
    | inr e ↦
        let (first, rest) = best-least y ys in
        subst (λ b. All (Precedes b) (x ∷ y ∷ ys)) (sym (rw (best_step x y ys, e) refl))
          (key_trans (best order request y ys) y x first (key-total x y e), (first, rest))
  ]

  best_among :
      (x : ProviderDescriptor) (xs : List ProviderDescriptor)
      → Any (λ d. best order request x xs ≡ d) (x ∷ xs)
  unfolding best
  best_among x [] = inl refl
  best_among x (y ∷ ys) = elim (Bool-cases (key_at_most order request x y)) [
    | inl e ↦
        subst (λ b. Any (λ d. b ≡ d) (x ∷ y ∷ ys)) (sym (rw (best_step x y ys, e) refl))
          (elim (best_among x ys) [ inl p ↦ inl p | inr p ↦ inr (inr p) ])
    | inr e ↦
        subst (λ b. Any (λ d. b ≡ d) (x ∷ y ∷ ys)) (sym (rw (best_step x y ys, e) refl))
          (inr (best_among y ys))
  ]

module _ {A : Type 0} where
  -- What holds of the elements that are kept, on the outcome of the test at the head.
  head_all :
      (P : A → Type 0) (b : Bool) (x : A) (rest : List A)
      → All P (if b then x ∷ rest else rest)
      → ((b ≡ false) ⊎ P x) × All P rest
  head_all P true x rest h = (inr h.0, h.1)
  head_all P false x rest h = (inl refl, h)

  pub kept_all :
      (P : A → Type 0) (p : A → Bool) (xs : List A)
      → All P (keep p xs)
      → All (λ x. (p x ≡ false) ⊎ P x) xs
  kept_all P p [] h = tt
  kept_all P p (x ∷ xs) h =
      let (first, rest) = head_all P (p x) x (keep p xs) h in (first, kept_all P p xs rest)

  head_case :
      (p : A → Bool) (d : A) (b : Bool) (x : A) (rest : List A)
      → (b ≡ true → p x ≡ true)
      → Any (λ y. d ≡ y) (if b then x ∷ rest else rest)
      → (d ≡ x) × (p d ≡ true) ⊎ Any (λ y. d ≡ y) rest
  head_case p d true x rest k (inl e) = inl (e, rw e (k refl))
  head_case p d true x rest k (inr h) = inr h
  head_case p d false x rest k h = inr h

  pub kept_one :
      (p : A → Bool) (d : A) (xs : List A)
      → Any (λ y. d ≡ y) (keep p xs)
      → Any (λ y. d ≡ y) xs × (p d ≡ true)
  kept_one p d [] h = absurd h
  kept_one p d (x ∷ xs) h = elim (head_case p d (p x) x (keep p xs) (λ e. e) h) [
    | inl (e, k) ↦ (inl e, k)
    | inr rest ↦ let (among, k) = kept_one p d xs rest in (inr among, k)
  ]

-- What `ConstraintRouter.select` lets pass: the tests of its loop and the hard constraints.
abbrev pub admits : Option (Dict ProviderDescriptor) → CapabilityRequest → ProviderDescriptor → Bool
admits registry request d = eligible registry request d && matches request d

-- The answer of a selection: a candidate that is admitted and that every other admitted candidate
-- follows in the order of the keys, or none, where no candidate is admitted.
abbrev pub IsSelected :
    TextOrder
    → Option (Dict ProviderDescriptor)
    → CapabilityRequest
    → List ProviderDescriptor
    → Option ProviderDescriptor
    → Type 0
IsSelected order registry request candidates none =
    All (λ d. admits registry request d ≡ false) candidates
IsSelected order registry request candidates (some d) =
    Any (λ x. d ≡ x) candidates
    × (admits registry request d ≡ true)
    × All (λ x. (admits registry request x ≡ false) ⊎ (key_at_most order request d x ≡ true))
        candidates

module _ (order : TextOrder) (registry : Option (Dict ProviderDescriptor))
    (request : CapabilityRequest) where
  both : (a b : Bool) (P : Type 0) → (a ≡ false) ⊎ ((b ≡ false) ⊎ P) → ((a && b) ≡ false) ⊎ P
  both true b P (inl e) = cc
  both true b P (inr r) = r
  both false b P h = inl refl

  refused_both :
      (P : ProviderDescriptor → Type 0) (xs : List ProviderDescriptor)
      → All (λ x. (eligible registry request x ≡ false) ⊎ ((matches request x ≡ false) ⊎ P x)) xs
      → All (λ x. (admits registry request x ≡ false) ⊎ P x) xs
  refused_both P xs h =
      All-map (λ x. both (eligible registry request x) (matches request x) (P x)) xs h

  kept_both :
      (P : ProviderDescriptor → Type 0) (candidates : List ProviderDescriptor)
      → All P (keep (λ d. matches request d) (keep (λ d. eligible registry request d) candidates))
      → All (λ x. (admits registry request x ≡ false) ⊎ P x) candidates
  kept_both P candidates h = refused_both P candidates (
      kept_all (λ x. (matches request x ≡ false) ⊎ P x) (λ d. eligible registry request d)
        candidates
        (kept_all P (λ d. matches request d) (keep (λ d. eligible registry request d) candidates)
          h))

  not_absurd : (x : ProviderDescriptor) (P : Type 0) → P ⊎ ⊥ → P
  not_absurd x P (inl h) = h
  not_absurd x P (inr h) = absurd h

  -- The first of the sorted list, on the list that was kept.
  first_sorted-IsSelected :
      (candidates kept : List ProviderDescriptor)
      → keep (λ d. matches request d) (keep (λ d. eligible registry request d) candidates) ≡ kept
      → IsSelected order registry request candidates (first_sorted order request kept)
  first_sorted-IsSelected candidates [] e =
      All-map (λ x. not_absurd x (admits registry request x ≡ false)) candidates
        (kept_both (λ _. ⊥) candidates (rw e tt))
  first_sorted-IsSelected candidates (x ∷ xs) e =
      let d = best order request x xs in
      let (passed, matched) =
        kept_one (λ d. matches request d) d (keep (λ d. eligible registry request d) candidates)
          (rw e (best_among order request x xs)) in
      let (among, allowed) = kept_one (λ d. eligible registry request d) d candidates passed in
      (
        among,
        rw (allowed, matched) refl,
        kept_both (λ y. key_at_most order request d y ≡ true) candidates
            (rw e (best-least order request x xs)),
      )

  pub select-IsSelected :
      (candidates : List ProviderDescriptor)
      → IsSelected order registry request candidates (select order registry request candidates)
  unfolding select select_by_priority
  select-IsSelected candidates = first_sorted-IsSelected candidates _ refl
