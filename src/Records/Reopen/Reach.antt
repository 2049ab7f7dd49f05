-- ===== src/Records/Reopen/Reach.antt =====
-- The search ends, and has then collected what the graph reaches.
use portable_runtime.Base.{ℕ, zero, suc, ◌+◌, ◌≤◌, String, ◌≡◌, refl, subst, inl, inr, true, false}
use portable_runtime.Base.{
  Option, some, is_some, List, [], ◌∷◌, ◌++◌, arith, length, elem, ◌==◌, eq_iff, eq_refl,
}
use portable_runtime.Base.{if◌then◌else◌, Bool-cases}
use portable_runtime.Records.Reopen.Search.{
  Relation, Store, Records, Search, find_candidate, visit, visit_all, search_loop,
}
use portable_runtime.Records.Reopen.Graph.{
  Among, Joins, Reached, begin, follow, Grows, unchanged_search, Grows-chain, Inv, visit-cases,
  visit-covers, visit-Grows, visit-Inv,
}

-- The ends of relations that the search has not seen, each as often as it stands there.
abbrev unseen_ends : List String → Relation → ℕ
unseen_ends seen rel =
    (if elem rel.subject_ref seen then 0 else 1) + (if elem rel.object_ref seen then 0 else 1)

pub unseen : List String → List Relation → ℕ
unseen seen [] = 0
unseen seen (rel ∷ rels) = unseen_ends seen rel + unseen seen rels

pub unseen-le :
    (seen : List String) (rels : List Relation) → unseen seen rels ≤ length rels + length rels
unfolding unseen
unseen-le seen [] = omega arith
unseen-le seen (rel ∷ rels) = ground (arith, unseen-le seen rels)

unseen_more :
    (o : String) (seen : List String) (rels : List Relation)
    → unseen (o ∷ seen) rels ≤ unseen seen rels
unfolding unseen
unseen_more o seen [] = omega arith
unseen_more o seen (rel ∷ rels) = ground (arith, unseen_more o seen rels)

unseen_ends_fewer :
    (c o : String) (seen : List String) (rel : Relation)
    → elem o seen ≡ false
    → Joins rel c o
    → unseen_ends (o ∷ seen) rel + 1 ≤ unseen_ends seen rel
unseen_ends_fewer c o seen rel new (inl (_, e)) = rw (e, eq_refl o, new) (ground arith)
unseen_ends_fewer c o seen rel new (inr (_, e)) = rw (e, eq_refl o, new) (ground arith)

-- A ref that is seen for the first time, the end of a relation, counts no more.
unseen_fewer :
    (c o : String) (seen : List String) (rel : Relation) (rels : List Relation)
    → elem o seen ≡ false
    → Joins rel c o
    → Among rel rels
    → unseen (o ∷ seen) rels + 1 ≤ unseen seen rels
unfolding unseen
unseen_fewer c o seen rel [] new j a = absurd a
unseen_fewer c o seen rel (r ∷ rels) new j (inl e) =
    let here = unseen_ends_fewer c o seen r new (subst (λ x. Joins x c o) e j) in
    let there = unseen_more o seen rels in omega arith
unseen_fewer c o seen rel (r ∷ rels) new j (inr a) =
    let rest = unseen_fewer c o seen rel rels new j a in ground arith

module _ (store : Store) (start : List String) where
  -- What bounds the rounds that are left.
  abbrev cost : Search → ℕ
  cost s = unseen s.seen store.relations + length s.queue

  length-snoc : (xs : List String) (x : String) → length (xs ++ (x ∷ [])) ≡ length xs + 1
  length-snoc [] x = refl
  length-snoc (y ∷ xs) x = omega (arith, length-snoc xs x)

  visit-cost :
      (c : String) (rel : Relation) (s : Search)
      → Among rel store.relations
      → cost (visit store c rel s) ≤ cost s
  visit-cost c rel s among = elim (visit-cases store start c rel s) [
    | inl e ↦ rw e (omega arith)
    | inr a ↦
        let fewer = unseen_fewer c a.o s.seen rel store.relations a.unseen a.joined among in
        rw a.result (omega (arith, length-snoc s.queue a.o))
  ]

  -- A round of the loop over some of the relations: all that the search keeps, and what it reaches.
  record Round (c : String) (rels : List Relation) (s t : Search) : Type 0 where
    grows : Grows s t
    inv : Inv store start t
    covers :
        (rel : Relation) (b : String)
        → Among rel rels
        → Joins rel c b
        → is_some (find_candidate store b) ≡ true
        → elem b t.seen ≡ true
    cheap : cost t ≤ cost s

  visit_all-Round :
      (c : String) (rels : List Relation) (s : Search)
      → ((rel : Relation) → Among rel rels → Among rel store.relations)
      → Reached store start c
      → elem c s.seen ≡ true
      → Inv store start s
      → Round c rels s (visit_all store c rels s)
  unfolding visit_all
  visit_all-Round c [] s within reached seen i = record {
    grows = unchanged_search s;
    inv = i;
    covers = λ rel b a j k. absurd a;
    cheap = omega arith;
  }
  visit_all-Round c (r ∷ rels) s within reached seen i =
      let among = within r (inl refl) in
      let step = visit-Grows store start c r s in
      let rest =
        visit_all-Round c rels (visit store c r s) (λ rel a. within rel (inr a)) reached
          (step.seen c seen) (visit-Inv store start c r s among reached i) in
      record {
        grows = Grows-chain step rest.grows;
        inv = rest.inv;
        covers = λ rel b. elim [
          | inl e ↦ λ j k.
              rest.grows.seen b
                (visit-covers store start c r s b (subst (λ x. Joins x c b) e j) k seen)
          | inr a ↦ λ j k. rest.covers rel b a j k
        ];
        cheap = let one = visit-cost c r s among in let more = rest.cheap in omega arith;
      }

  -- Whoever has been seen and waits no more has had all its neighbours seen.
  abbrev Closed : Search → Type 0
  Closed s =
      (x b : String) (rel : Relation)
      → elem x s.seen ≡ true
      → elem x s.queue ≡ false
      → Among rel store.relations
      → Joins rel x b
      → is_some (find_candidate store b) ≡ true
      → elem b s.seen ≡ true

  -- The result of the loop: with an empty queue, all is closed.
  pub record Ends (r : Option Records) : Type 0 where
    pub records : Records
    pub seen : List String
    pub returns : r ≡ some records
    pub inv : Inv store start (record { queue = []; seen = seen; records = records })
    pub closed : Closed (record { queue = []; seen = seen; records = records })

  popped-Inv :
      (c : String) (q seen : List String) (rs : Records)
      → Inv store start (record { queue = c ∷ q; seen = seen; records = rs })
      → Inv store start (record { queue = q; seen = seen; records = rs })
  popped-Inv c q seen rs i = record {
    sound = i.sound;
    queued = λ x h. i.queued x (ground arith);
    started = i.started;
    keys = i.keys;
    stored = i.stored;
  }

  Closed-after :
      (c : String) (q seen : List String) (rs : Records) (t : Search)
      → Round c store.relations (record { queue = q; seen = seen; records = rs }) t
      → Closed (record { queue = c ∷ q; seen = seen; records = rs })
      → Closed t
  Closed-after c q seen rs t round closed x b rel h gone among j known =
      elim (Bool-cases (x == c)) [
        | inl e ↦ round.covers rel b among (subst (λ y. Joins rel y b) ((eq_iff x c).0 e) j) known
        | inr e ↦ elim (round.grows.fresh x h) [
          | inr queued ↦ cc (gone, queued)
          | inl old ↦
              let out : elem x q ≡ false = ground (arith, round.grows.queued x, gone) in
              round.grows.seen b (closed x b rel old (rw (e, out) refl) among j known)
        ]
      ]

  -- Fuel that bounds the cost of the search is enough.
  pub search_loop-Ends :
      (fuel : ℕ) (q seen : List String) (rs : Records)
      → Inv store start (record { queue = q; seen = seen; records = rs })
      → Closed (record { queue = q; seen = seen; records = rs })
      → unseen seen store.relations + length q ≤ fuel
      → Ends (search_loop fuel store q seen rs)
  unfolding search_loop
  search_loop-Ends fuel [] seen rs i closed f = record {
    records = rs;
    seen = seen;
    returns = refl;
    inv = i;
    closed = closed;
  }
  search_loop-Ends zero (c ∷ q) seen rs i closed f = absurd (omega arith)
  search_loop-Ends (suc fuel) (c ∷ q) seen rs i closed f =
      let s : Search = record { queue = q; seen = seen; records = rs } in
      let present = i.queued c (rw (eq_refl c) refl) in
      let round =
        visit_all-Round c store.relations s (λ rel a. a) (i.sound c present) present
          (popped-Inv c q seen rs i) in
      let cheap = round.cheap in
      search_loop-Ends fuel _ _ _ round.inv (Closed-after c q seen rs _ round closed) (omega arith)

  -- All that can be reached has been seen when the search has ended.
  pub Reached-seen :
      {r : Option Records} (e : Ends r) {x : String} → Reached store start x → elem x e.seen ≡ true
  Reached-seen e (begin h) = e.inv.started _ h
  Reached-seen e (follow {a} {b} rel r among j known) =
      e.closed a b rel (Reached-seen e r) refl among j known
