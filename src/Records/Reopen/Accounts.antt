-- ===== src/Records/Reopen/Accounts.antt =====
-- What the assembled package says of the refs that the search reaches, and of contradicted ones.
use portable_runtime.Base.{
  ℕ, ◌+◌, ◌≤◌, String, ◌≡◌, refl, ◌↔◌, ◌⊎◌, inl, inr, Bool, true, false, not, ◌&&◌, ◌||◌, Option,
  none, some, is_some, List, [], ◌∷◌, ◌++◌,
}
use portable_runtime.Base.{elem, keep, length, arith, ◌==◌, eq_iff, eq_refl, Bool-cases, subst}
use portable_runtime.Base.Result.{ok}
use portable_runtime.Records.Reopen.Search.{Relation, Store, Records, has_key}
use portable_runtime.Records.Reopen.Package.{
  Disposition, carry_forward, reconsider, invalidated, unresolved, context_only, ReopenAssessment,
  Work, ReopenPackage, Gathered, nothing_gathered,
}
use portable_runtime.Records.Reopen.Gather.{
  collected_ends, gather_record, gather_records, gather_relation, gather_relations, gather_all,
  unique, unique_after, assemble, new_package, lifecycle_disposition,
}
use portable_runtime.Records.Reopen.Graph.{Among, has_key-assign}
use portable_runtime.Records.Reopen.Collected.{collect_records-Collects}
use portable_runtime.Records.Reopen.Graph.{Reached}
use portable_runtime.Records.Reopen.Collected.{starts}
use portable_runtime.Records.Reopen.Handoff.{
  value_of, is_doubt, doubted, doubted-mark, Keyed, gather_relation-Marks, gather_relations-Keyed,
}

-- A ref that is doubted, and stands among the counterevidence.
abbrev Countered : String → Gathered → Type 0
Countered x g = (elem x g.counterevidence_refs ≡ true) × (doubted x g.dispositions ≡ true)

elem-append : (x : String) (xs ys : List String) → elem x (xs ++ ys) ≡ (elem x xs || elem x ys)
elem-append x [] ys = refl
elem-append x (z ∷ xs) ys = rw (elem-append x xs ys) (ground arith)

elem-keep :
    (x : String) (p : String → Bool) (xs : List String) → elem x (keep p xs) ≡ (elem x xs && p x)
elem-keep x p [] = refl
elem-keep x p (y ∷ xs) = elim (Bool-cases (x == y)) [
  | inl e ↦ rw ((eq_iff x y).0 e) (elim (Bool-cases (p y)) [
    | inl f ↦ rw (f, eq_refl y) refl
    | inr f ↦ rw (f, elem-keep y p xs, f) (ground arith)
  ])
  | inr e ↦ elim (Bool-cases (p y)) [
    | inl f ↦ rw (f, e) (elem-keep x p xs)
    | inr f ↦ rw (f, e) (elem-keep x p xs)
  ]
]

counterevidence_kept :
    (records : Records) (rel : Relation) (g : Gathered) (x : String)
    → elem x g.counterevidence_refs ≡ true
    → elem x (gather_relation records rel g).counterevidence_refs ≡ true
unfolding gather_relation
counterevidence_kept records rel g x h =
    ground (arith, elem-append x g.counterevidence_refs (collected_ends records rel))

gather_relation-Countered :
    (records : Records) (rel : Relation) (g : Gathered) (x : String)
    → Countered x g
    → Countered x (gather_relation records rel g)
gather_relation-Countered records rel g x h =
    let m = gather_relation-Marks records rel g in
    (
      counterevidence_kept records rel g x h.0,
      rw
          (
            m.result,
            doubted-mark x m.value (keep (λ ref. has_key ref records) m.refs) g.dispositions
                m.doubts,
            h.1,
          )
          (ground arith),
    )

near_end :
    (a b : Bool) (x s o : String) (p : String → Bool)
    → a ≡ p s
    → b ≡ p o
    → (x ≡ s) ⊎ (x ≡ o)
    → p x ≡ true
    → (not a && not b) ≡ false
near_end a b x s o p ha hb (inl e) h = rw (ha, ← e, h) refl
near_end a b x s o p ha hb (inr e) h = rw (hb, ← e, h) (ground arith)

contradicting :
    (records : Records) (rel : Relation) (g : Gathered) (x : String)
    → rel.relation_type ≡ "contradicts"
    → (x ≡ rel.subject_ref) ⊎ (x ≡ rel.object_ref)
    → has_key x records ≡ true
    → Countered x (gather_relation records rel g)
unfolding gather_relation
contradicting records rel g x kind end h =
    let ends = rel.subject_ref ∷ rel.object_ref ∷ [] in
    let collected = λ (ref : String). has_key ref records in
    let at_end : elem x ends ≡ true =
      ground (arith, eq_iff x rel.subject_ref, eq_iff x rel.object_ref) in
    let chosen : elem x (keep collected ends) ≡ true =
      rw (elem-keep x collected ends, at_end, h) refl in
    let near : (not (has_key rel.subject_ref records) && not (has_key rel.object_ref records))
        ≡ false =
      near_end (has_key rel.subject_ref records) (has_key rel.object_ref records) x rel.subject_ref
        rel.object_ref collected refl refl end h in
    rw (near, kind)
      (
        rw (elem-append x g.counterevidence_refs (keep collected ends), chosen) (ground arith),
        rw (doubted-mark x invalidated (keep collected ends) g.dispositions refl, chosen) refl,
      )

gather_relations-Countered :
    (records : Records) (rels : List Relation) (g : Gathered) (x : String)
    → Countered x g
    → Countered x (gather_relations records rels g)
unfolding gather_relations
gather_relations-Countered records [] g x h = h
gather_relations-Countered records (rel ∷ rels) g x h =
    gather_relations-Countered records rels (gather_relation records rel g) x
      (gather_relation-Countered records rel g x h)

contradicted :
    (records : Records) (rels : List Relation) (g : Gathered) (rel : Relation) (x : String)
    → Among rel rels
    → rel.relation_type ≡ "contradicts"
    → (x ≡ rel.subject_ref) ⊎ (x ≡ rel.object_ref)
    → has_key x records ≡ true
    → Countered x (gather_relations records rels g)
unfolding gather_relations
contradicted records [] g rel x a kind end h = absurd a
contradicted records (r ∷ rels) g rel x (inr a) kind end h =
    contradicted records rels (gather_relation records r g) rel x a kind end h
contradicted records (r ∷ rels) g rel x (inl e) kind end h =
    gather_relations-Countered records rels (gather_relation records r g) x (
      subst (λ r. Countered x (gather_relation records r g)) e
        (contradicting records rel g x kind end h))

gather_records-keys :
    (rs : Records) (g : Gathered) (x : String)
    → has_key x (gather_records rs g).dispositions ≡ (has_key x rs || has_key x g.dispositions)
unfolding gather_records gather_record has_key
gather_records-keys [] g x = refl
gather_records-keys ((k, r) ∷ rs) g x =
    rw
      (
        gather_records-keys rs (gather_record k r g) x,
        has_key-assign x k (lifecycle_disposition r.lifecycle_status) g.dispositions,
      )
      (ground arith)

unique_after-elem :
    (x : String) (earlier xs : List String)
    → (elem x earlier || elem x (unique_after earlier xs)) ≡ (elem x earlier || elem x xs)
unfolding unique_after
unique_after-elem x earlier [] = refl
unique_after-elem x earlier (y ∷ xs) = elim (Bool-cases (elem y earlier)) [
  | inl e ↦ rw e (elim (Bool-cases (x == y)) [
    | inl f ↦ rw ((eq_iff x y).0 f, e) refl
    | inr f ↦ rw f (
        subst
          (λ b.
            ((b || elem x earlier) || elem x (unique_after (y ∷ earlier) xs))
            ≡ ((b || elem x earlier) || elem x xs))
          f (unique_after-elem x (y ∷ earlier) xs))
  ])
  | inr e ↦ rw e (let rest = unique_after-elem x (y ∷ earlier) xs in ground arith)
]

unique-elem : (x : String) (xs : List String) → elem x (unique xs) ≡ elem x xs
unique-elem x xs = unique_after-elem x [] xs

abbrev gathered_records : Records → Gathered
gathered_records records = gather_records records nothing_gathered

gathered-Keyed : (records : Records) → Keyed records (gathered_records records).dispositions
unfolding has_key
gathered-Keyed records x = rw (gather_records-keys records nothing_gathered x) (ground arith)

is_doubt-cases :
    (o : Option Disposition) → is_doubt o ≡ true → (o ≡ some invalidated) ⊎ (o ≡ some reconsider)
is_doubt-cases none h = cc
is_doubt-cases (some invalidated) h = inl refl
is_doubt-cases (some reconsider) h = inr refl
is_doubt-cases (some carry_forward) h = cc
is_doubt-cases (some unresolved) h = cc
is_doubt-cases (some context_only) h = cc

-- Without a handoff that is given, and with fuel as collect_records needs, assemble on a store returns
-- a package, whose dispositions stand for exactly the refs that are reached from the work or the
-- target, without these, and for the target if the store has it.
pub assemble-Accounts :
    (fuel : ℕ) (store : Store) (assessment : ReopenAssessment) (work : Work) (x : String)
    → length store.relations + length store.relations + 2 ≤ fuel
    → assessment.handoff ≡ none
    → (p : ReopenPackage) × (assemble fuel (some store) assessment work none ≡ ok p)
      × ((has_key x p.handoff.dispositions ≡ true) ↔ (
          Reached store (starts assessment.record_ref work.id) x
            × (elem x (starts assessment.record_ref work.id) ≡ false)
          ⊎ (x ≡ assessment.record_ref)
            × (is_some (store.get_record assessment.record_ref) ≡ true)))
unfolding assemble
assemble-Accounts fuel store assessment work x enough plain =
    let (records, e, all, _) =
      collect_records-Collects fuel store assessment.record_ref work.id enough in
    let keys =
      gather_relations-Keyed records store.relations (gathered_records records)
        (gathered-Keyed records) x in
    (
      new_package assessment work none (gather_all store records),
      rw (assemble, e) refl,
      rw (plain, keys) (all x),
    )

-- Without a handoff that is given, and with fuel as collect_records needs, assemble on a store returns
-- a package: a reached ref at an end of a contradicting relation, other than the work and the target,
-- stands among its counterevidence, and its disposition there is invalidated or reconsider.
pub assemble-Countered :
    (fuel : ℕ) (store : Store) (assessment : ReopenAssessment) (work : Work) (rel : Relation)
    (x : String)
    → length store.relations + length store.relations + 2 ≤ fuel
    → assessment.handoff ≡ none
    → Among rel store.relations
    → rel.relation_type ≡ "contradicts"
    → (x ≡ rel.subject_ref) ⊎ (x ≡ rel.object_ref)
    → Reached store (starts assessment.record_ref work.id) x
    → elem x (starts assessment.record_ref work.id) ≡ false
    → (p : ReopenPackage) × (assemble fuel (some store) assessment work none ≡ ok p)
      × (elem x p.counterevidence_refs ≡ true)
      × ((value_of x p.handoff.dispositions ≡ some invalidated)
          ⊎ (value_of x p.handoff.dispositions ≡ some reconsider))
unfolding assemble
assemble-Countered fuel store assessment work rel x enough plain among kind end reached other =
    let (records, e, all, _) =
      collect_records-Collects fuel store assessment.record_ref work.id enough in
    let found = (all x).1 (inl (reached, other)) in
    let (counter, doubt) =
      contradicted records store.relations (gathered_records records) rel x among kind end found in
    (
      new_package assessment work none (gather_all store records),
      rw (assemble, e) refl,
      rw (unique-elem x (gather_all store records).counterevidence_refs) counter,
      rw plain (is_doubt-cases (value_of x (gather_all store records).dispositions) doubt),
    )
