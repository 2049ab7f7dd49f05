-- ===== src/Journal/Order.antt =====
-- The sort and the filter of `list_events` keep what holds of every event and what some event is.
use mathlib.Core.Path.{subst}
use portable_runtime.Base.{
  String, ◌≡◌, ◌⊎◌, inl, inr, Bool, true, some, List, [], ◌∷◌, ◌++◌, ◌==◌, Bool-cases, leb, keep,
  All, Any,
}
use portable_runtime.Journal.Models.{Event, find_event, insert_event, sort_events}

module _ {A : Type 0} (P : A → Type 0) where
  pub All-append : (xs ys : List A) → All P xs → All P ys → All P (xs ++ ys)
  All-append [] ys h k = k
  All-append (x ∷ xs) ys h k = (h.0, All-append xs ys h.1 k)

  pub Any-append_right : (xs ys : List A) → Any P ys → Any P (xs ++ ys)
  Any-append_right [] ys k = k
  Any-append_right (x ∷ xs) ys k = inr (Any-append_right xs ys k)

  pub Any-append_left : (xs ys : List A) → Any P xs → Any P (xs ++ ys)
  Any-append_left [] ys k = absurd k
  Any-append_left (x ∷ xs) ys (inl h) = inl h
  Any-append_left (x ∷ xs) ys (inr h) = inr (Any-append_left xs ys h)

  pub All-keep : (p : A → Bool) (xs : List A) → All P xs → All (λ x. P x × (p x ≡ true)) (keep p xs)
  All-keep p [] h = tt
  All-keep p (x ∷ xs) h = elim (Bool-cases (p x)) [
    | inl e ↦ rw e ((h.0, e), All-keep p xs h.1)
    | inr e ↦ rw e (All-keep p xs h.1)
  ]

  pub Any-keep :
      (p : A → Bool) → ((x : A) → P x → p x ≡ true) → (xs : List A) → Any P xs → Any P (keep p xs)
  Any-keep p k [] h = h
  Any-keep p k (x ∷ xs) (inl h) = rw (k x h) (inl h)
  Any-keep p k (x ∷ xs) (inr h) = elim (Bool-cases (p x)) [
    | inl e ↦ rw e (inr (Any-keep p k xs h))
    | inr e ↦ rw e (Any-keep p k xs h)
  ]

module _ (P : Event → Type 0) where
  below :
      (e x : Event) (xs : List Event)
      → (P e ⊎ Any P xs → Any P (insert_event e xs))
      → P e ⊎ (P x ⊎ Any P xs)
      → P x ⊎ Any P (insert_event e xs)
  below e x xs rec (inl p) = inr (rec (inl p))
  below e x xs rec (inr (inl q)) = inl q
  below e x xs rec (inr (inr q)) = inr (rec (inr q))

  All-insert : (e : Event) (es : List Event) → P e → All P es → All P (insert_event e es)
  unfolding insert_event
  All-insert e [] p h = (p, tt)
  All-insert e (x ∷ xs) p h = elim (Bool-cases (leb x.created_at e.created_at)) [
    | inl b ↦ rw b (p, h)
    | inr b ↦ rw b (h.0, All-insert e xs p h.1)
  ]

  pub All-sort : (es : List Event) → All P es → All P (sort_events es)
  unfolding sort_events
  All-sort [] h = tt
  All-sort (e ∷ es) h = All-insert e (sort_events es) h.0 (All-sort es h.1)

  Any-insert : (e : Event) (es : List Event) → P e ⊎ Any P es → Any P (insert_event e es)
  unfolding insert_event
  Any-insert e [] h = h
  Any-insert e (x ∷ xs) h = elim (Bool-cases (leb x.created_at e.created_at)) [
    | inl b ↦ rw b h
    | inr b ↦ rw b (below e x xs (Any-insert e xs) h)
  ]

  pub Any-sort : (es : List Event) → Any P es → Any P (sort_events es)
  unfolding sort_events
  Any-sort [] h = h
  Any-sort (e ∷ es) (inl h) = Any-insert e (sort_events es) (inl h)
  Any-sort (e ∷ es) (inr h) = Any-insert e (sort_events es) (inr (Any-sort es h))

  pub find-All :
      (id : String) (es : List Event) (e : Event) → find_event id es ≡ some e → All P es → P e
  unfolding find_event
  find-All id [] e h k = cc
  find-All id (x ∷ xs) e h k = elim (Bool-cases (x.id == id)) [
    | inl b ↦ let same : some x ≡ some e = rw b at h in subst P (cc same) k.0
    | inr b ↦ let later : find_event id xs ≡ some e = rw b at h in find-All id xs e later k.1
  ]

  pub find-Any :
      (id : String) (es : List Event) (e : Event) → find_event id es ≡ some e → P e → Any P es
  unfolding find_event
  find-Any id [] e h p = cc
  find-Any id (x ∷ xs) e h p = elim (Bool-cases (x.id == id)) [
    | inl b ↦ let same : some x ≡ some e = rw b at h in inl (subst P (cc same) p)
    | inr b ↦ let later : find_event id xs ≡ some e = rw b at h in inr (find-Any id xs e later p)
  ]
