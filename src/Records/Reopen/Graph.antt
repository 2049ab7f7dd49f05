-- ===== src/Records/Reopen/Graph.antt =====
-- What the search reaches: the graph of the relations, restricted to what the store holds.
use portable_runtime.Base.{String, ◌≡◌, refl, subst, ◌⊎◌, inl, inr, true, false, ◌&&◌, ◌||◌}
use portable_runtime.Base.{
  not, Option, none, some, is_some, List, [], ◌∷◌, ◌++◌, arith, elem, Any, All, ◌==◌, eq_iff,
  eq_refl,
}
use portable_runtime.Base.{if◌then◌else◌, Bool-cases, Option-cases}
use portable_runtime.Records.Reopen.Search.{
  Relation, StoredRecord, Store, Records, assign, has_key, Search, other_end, find_candidate,
  add_candidate, visit,
}

abbrev pub Among : Relation → List Relation → Type 0
Among rel rels = Any (λ r. rel ≡ r) rels

-- The relation has the two refs as its ends, in one order or the other.
abbrev pub Joins : Relation → String → String → Type 0
Joins rel a b =
    (rel.subject_ref ≡ a) × (rel.object_ref ≡ b) ⊎ (rel.object_ref ≡ a) × (rel.subject_ref ≡ b)

-- What can be reached from the starting refs over relations, where the store knows each next ref.
pub data Reached (store : Store) (start : List String) : String → Type 0 where
  begin : {r : String} → elem r start ≡ true → Reached store start r
  follow :
      {a b : String} (rel : Relation)
      → Reached store start a
      → Among rel store.relations
      → Joins rel a b
      → is_some (find_candidate store b) ≡ true
      → Reached store start b

pub elem-append :
    (x y : String) (xs : List String) → elem x (xs ++ (y ∷ [])) ≡ (x == y || elem x xs)
elem-append x y [] = ground arith
elem-append x y (z ∷ xs) = ground (arith, elem-append x y xs)

pub has_key-assign :
    {V : Type 0} (x k : String) (v : V) (rs : List (String × V))
    → has_key x (assign k v rs) ≡ (x == k || has_key x rs)
unfolding assign has_key
has_key-assign x k v [] = refl
has_key-assign x k v ((j, w) ∷ rs) = ground (arith, has_key-assign x k v rs, eq_iff k j)

-- Each collected record is what the store has under its ref.
abbrev pub IsStored : Store → Records → Type 0
IsStored store rs = All (λ (k, v). find_candidate store k ≡ some v) rs

pub assign-IsStored :
    (store : Store) (k : String) (v : StoredRecord) (rs : Records)
    → find_candidate store k ≡ some v
    → IsStored store rs
    → IsStored store (assign k v rs)
unfolding assign
assign-IsStored store k v [] e h = (e, tt)
assign-IsStored store k v ((j, w) ∷ rs) e h = elim (Bool-cases (k == j)) [
  | inl same ↦ rw same (subst (λ x. find_candidate store x ≡ some v) ((eq_iff k j).0 same) e, h.1)
  | inr other ↦ rw other (h.0, assign-IsStored store k v rs e h.1)
]

-- What a step of the search keeps: nothing seen or queued is lost, and what is new is queued.
pub record Grows (s t : Search) : Type 0 where
  pub seen : (x : String) → elem x s.seen ≡ true → elem x t.seen ≡ true
  pub queued : (x : String) → elem x s.queue ≡ true → elem x t.queue ≡ true
  pub fresh : (x : String) → elem x t.seen ≡ true → (elem x s.seen ≡ true) ⊎ (elem x t.queue ≡ true)

pub unchanged_search : (s : Search) → Grows s s
unchanged_search s = record { seen = λ x h. h; queued = λ x h. h; fresh = λ x h. inl h }

pub Grows-chain : {s t u : Search} → Grows s t → Grows t u → Grows s u
Grows-chain a b = record {
  seen = λ x h. b.seen x (a.seen x h);
  queued = λ x h. b.queued x (a.queued x h);
  fresh = λ x h. ground (arith, a.fresh x, b.fresh x h, b.queued x);
}

-- What holds of a search at every moment.
pub record Inv (store : Store) (start : List String) (s : Search) : Type 0 where
  pub sound : (x : String) → elem x s.seen ≡ true → Reached store start x
  pub queued : (x : String) → elem x s.queue ≡ true → elem x s.seen ≡ true
  pub started : (x : String) → elem x start ≡ true → elem x s.seen ≡ true
  pub keys : (x : String) → has_key x s.records ≡ (elem x s.seen && not (elem x start))
  pub stored : IsStored store s.records

module _ (store : Store) (start : List String) where
  -- A step that adds the ref `o` with the record `v`.
  pub record Adds (c : String) (rel : Relation) (s : Search) : Type 0 where
    pub o : String
    pub v : StoredRecord
    pub joined : Joins rel c o
    pub unseen : elem o s.seen ≡ false
    pub known : find_candidate store o ≡ some v
    pub result : visit store c rel s ≡ add_candidate o (some v) s

  other_end-Joins :
      (c : String) (rel : Relation)
      → (rel.subject_ref == c || rel.object_ref == c) ≡ true
      → Joins rel c (other_end c rel)
  other_end-Joins c rel h = elim (Bool-cases (rel.subject_ref == c)) [
    | inl e ↦ rw e (inl ((eq_iff rel.subject_ref c).0 e, refl))
    | inr e ↦ rw e (inr ((eq_iff rel.object_ref c).0 (ground arith), refl))
  ]

  -- A step changes nothing, or adds one ref that was not seen.
  pub visit-cases :
      (c : String) (rel : Relation) (s : Search) → (visit store c rel s ≡ s) ⊎ Adds c rel s
  unfolding visit
  visit-cases c rel s = elim (Bool-cases (rel.subject_ref == c || rel.object_ref == c)) [
    | inr far ↦ inl (ground arith)
    | inl near ↦ elim (Bool-cases (elem (other_end c rel) s.seen)) [
      | inl old ↦ inl (ground arith)
      | inr unseen ↦ elim (Option-cases (find_candidate store (other_end c rel))) [
        | inl e ↦ inl (ground arith)
        | inr (v, e) ↦ inr (record {
          o = other_end c rel;
          v = v;
          joined = other_end-Joins c rel near;
          unseen = unseen;
          known = e;
          result = ground arith;
        })
      ]
    ]
  ]

  add-Grows : (s : Search) (o : String) (v : StoredRecord) → Grows s (add_candidate o (some v) s)
  add-Grows s o v = record {
    seen = λ x h. ground arith;
    queued = λ x h. rw (elem-append x o s.queue) (ground arith);
    fresh = λ x h. rw (elem-append x o s.queue) (ground arith);
  }

  pub visit-Grows : (c : String) (rel : Relation) (s : Search) → Grows s (visit store c rel s)
  visit-Grows c rel s = elim (visit-cases c rel s) [
    | inl e ↦ rw e (unchanged_search s)
    | inr a ↦ rw a.result (add-Grows s a.o a.v)
  ]

  add-elem :
      (s : Search) (o : String) (found : Option StoredRecord)
      → is_some found ≡ true
      → elem o (if elem o s.seen then s else add_candidate o found s).seen ≡ true
  add-elem s o none h = cc
  add-elem s o (some v) h = elim (Bool-cases (elem o s.seen)) [
    | inl e ↦ rw e e
    | inr e ↦ rw (e, eq_refl o) refl
  ]

  visit_near :
      (c : String) (rel : Relation) (s : Search)
      → (rel.subject_ref == c || rel.object_ref == c) ≡ true
      → visit store c rel s ≡ (
          if elem (other_end c rel) s.seen
          then s
          else add_candidate (other_end c rel) (find_candidate store (other_end c rel)) s)
  unfolding visit
  visit_near c rel s near = ground arith

  -- After the step, the other end of the relation has been seen, if the store knows it.
  pub visit-covers :
      (c : String) (rel : Relation) (s : Search) (b : String)
      → Joins rel c b
      → is_some (find_candidate store b) ≡ true
      → elem c s.seen ≡ true
      → elem b (visit store c rel s).seen ≡ true
  visit-covers c rel s b j known seen =
      let near : (rel.subject_ref == c || rel.object_ref == c) ≡ true =
        ground (arith, eq_iff rel.subject_ref c, eq_iff rel.object_ref c) in
      let end : (other_end c rel ≡ b) ⊎ (c ≡ b) =
        ground (arith, eq_iff rel.subject_ref c, eq_iff rel.object_ref c) in
      elim end [
        | inl e ↦ rw (visit_near c rel s near, e) (add-elem s b (find_candidate store b) known)
        | inr e ↦ (visit-Grows c rel s).seen b (rw (← e) seen)
      ]

  outside_start :
      (x o : String) (s : Search)
      → ((y : String) → elem y start ≡ true → elem y s.seen ≡ true)
      → elem o s.seen ≡ false
      → (x == o || (elem x s.seen && not (elem x start)))
        ≡ ((x == o || elem x s.seen) && not (elem x start))
  outside_start x o s started unseen = elim (Bool-cases (x == o)) [
    | inl e ↦ rw ((eq_iff x o).0 e) (ground (arith, started o))
    | inr e ↦ rw e refl
  ]

  pub visit-Inv :
      (c : String) (rel : Relation) (s : Search)
      → Among rel store.relations
      → Reached store start c
      → Inv store start s
      → Inv store start (visit store c rel s)
  visit-Inv c rel s among reached i = elim (visit-cases c rel s) [
    | inl e ↦ rw e i
    | inr a ↦ rw a.result (record {
      sound = λ x h. elim (Bool-cases (x == a.o)) [
        | inl same ↦
            rw ((eq_iff x a.o).0 same) (follow rel reached among a.joined (rw a.known refl))
        | inr other ↦ i.sound x (ground arith)
      ];
      queued = λ x h. ground (arith, elem-append x a.o s.queue, i.queued x);
      started = λ x h. ground (arith, i.started x h);
      keys = λ x.
          rw (has_key-assign x a.o a.v s.records, i.keys x)
            (outside_start x a.o s i.started a.unseen);
      stored = assign-IsStored store a.o a.v s.records a.known i.stored;
    })
  ]
