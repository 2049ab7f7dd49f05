-- ===== src/Base/Lists.antt =====
-- Python's list and set operations that the program uses, on lists.
use Prim.Native.Nat.{ℕ, suc}
use Prim.Native.String.{String}
use mathlib.Core.Path.{◌≡◌, refl}
use mathlib.Core.Logic.{◌↔◌, ◌⊎◌, inl, inr}
use mathlib.Core.Bool.{Bool, true, false, ◌&&◌, ◌||◌}
use mathlib.Core.List.{List, [], ◌∷◌}
use native.Mathlib.Omega.{arith}
use text.Mathlib.Text.{◌==◌}
use text.Mathlib.TextEquality.{eq_iff}
use portable_runtime.Base.Tests.{if◌then◌else◌, Bool-cases, and_left, and_right}

module _ {ℓ} {A : Type ℓ} where
  abbrev pub length : List A → ℕ
  length [] = 0
  length (_ ∷ xs) = suc (length xs)

  -- The truth value of a list.
  abbrev pub non_empty : List A → Bool
  non_empty [] = false
  non_empty (_ ∷ _) = true

  abbrev pub any : (A → Bool) → List A → Bool
  any p [] = false
  any p (x ∷ xs) = p x || any p xs

  abbrev pub all : (A → Bool) → List A → Bool
  all p [] = true
  all p (x ∷ xs) = p x && all p xs

  -- `[x for x in xs if p(x)]`
  abbrev pub keep : (A → Bool) → List A → List A
  keep p [] = []
  keep p (x ∷ xs) = let rest = keep p xs in if p x then x ∷ rest else rest

  -- Some element has the property, and every element has it.
  abbrev pub Any : (A → Type 0) → List A → Type 0
  Any P [] = ⊥
  Any P (x ∷ xs) = P x ⊎ Any P xs

  abbrev pub All : (A → Type 0) → List A → Type 0
  All P [] = Unit
  All P (x ∷ xs) = P x × All P xs

-- `value in values`
abbrev pub elem : String → List String → Bool
elem a [] = false
elem a (x ∷ xs) = a == x || elem a xs

-- `set(xs).issubset(ys)`
abbrev pub subset : List String → List String → Bool
subset xs ys = all (λ x. elem x ys) xs

abbrev pub In : String → List String → Type 0
In a xs = Any (λ x. a ≡ x) xs

pub elem_iff : (a : String) (xs : List String) → (elem a xs ≡ true) ↔ In a xs
elem_iff a [] = ground arith
elem_iff a (x ∷ xs) = ground (arith, eq_iff a x, elem_iff a xs)

pub subset_iff : (xs ys : List String) → (subset xs ys ≡ true) ↔ All (λ x. In x ys) xs
subset_iff [] ys = ground arith
subset_iff (x ∷ xs) ys = ground (arith, elem_iff x ys, subset_iff xs ys)

All-In-cons :
    (z : String) (xs ys : List String) → All (λ x. In x ys) xs → All (λ x. In x (z ∷ ys)) xs
All-In-cons z [] ys h = tt
All-In-cons z (x ∷ xs) ys h = (inr h.0, All-In-cons z xs ys h.1)

All-In_self : (xs : List String) → All (λ x. In x xs) xs
All-In_self [] = tt
All-In_self (x ∷ xs) = (inl refl, All-In-cons x xs xs (All-In_self xs))

pub subset_self : (xs : List String) → subset xs xs ≡ true
subset_self xs = (subset_iff xs xs).1 (All-In_self xs)

module _ {A : Type 0} (p : A → Bool) (P : A → Type 0) where
  pub Any-of_any : ((x : A) → p x ≡ true → P x) → (xs : List A) → any p xs ≡ true → Any P xs
  Any-of_any k [] h = cc
  Any-of_any k (x ∷ xs) h = elim (Bool-cases (p x)) [
    | inl e ↦ inl (k x e)
    | inr e ↦ inr (Any-of_any k xs (ground arith))
  ]

  pub any_of_Any : ((x : A) → P x → p x ≡ true) → (xs : List A) → Any P xs → any p xs ≡ true
  any_of_Any k [] h = absurd h
  any_of_Any k (x ∷ xs) (inl e) = rw (k x e)
  any_of_Any k (x ∷ xs) (inr r) = ground (arith, any_of_Any k xs r)

  pub All-of_all : ((x : A) → p x ≡ true → P x) → (xs : List A) → all p xs ≡ true → All P xs
  All-of_all k [] h = tt
  All-of_all k (x ∷ xs) h =
      (k x (and_left (p x) (all p xs) h), All-of_all k xs (and_right (p x) (all p xs) h))

  pub all_of_All : ((x : A) → P x → p x ≡ true) → (xs : List A) → All P xs → all p xs ≡ true
  all_of_All k [] h = refl
  all_of_All k (x ∷ xs) h = rw (k x h.0, all_of_All k xs h.1)

module _ {A : Type 0} {P Q : A → Type 0} where
  pub All-map : ((x : A) → P x → Q x) → (xs : List A) → All P xs → All Q xs
  All-map f [] h = tt
  All-map f (x ∷ xs) h = (f x h.0, All-map f xs h.1)

  pub Any-map : ((x : A) → P x → Q x) → (xs : List A) → Any P xs → Any Q xs
  Any-map f [] h = absurd h
  Any-map f (x ∷ xs) (inl h) = inl (f x h)
  Any-map f (x ∷ xs) (inr h) = inr (Any-map f xs h)
