-- ===== src/Records/Reopen/Handoff.antt =====
-- The dispositions of a handoff package.
use portable_runtime.Base.{
  String, ◌≡◌, refl, inl, inr, Bool, true, false, not, ◌&&◌, ◌||◌, Option, none, some, List, [],
  ◌∷◌,
}
use portable_runtime.Base.{elem, keep, arith, ◌==◌, eq_iff, if◌then◌else◌, Bool-cases}
use portable_runtime.Records.Reopen.Search.{Relation, Records, assign, has_key}
use portable_runtime.Records.Reopen.Package.{
  Disposition, reconsider, invalidated, Dispositions, Gathered,
}
use portable_runtime.Records.Reopen.Gather.{mark, gather_relation, gather_relations}
use portable_runtime.Records.Reopen.Graph.{has_key-assign}

abbrev pub value_of : String → Dispositions → Option Disposition
value_of x [] = none
value_of x ((k, v) ∷ rest) = let other = value_of x rest in if x == k then some v else other

apart :
    {A : Type 0} (x k j : String) (a b c : A)
    → (k == j) ≡ false
    → (if x == j then b else if x == k then a else c)
      ≡ (if x == k then a else if x == j then b else c)
apart x k j a b c e = elim (Bool-cases (x == k)) [
  | inl f ↦ rw ((eq_iff x k).0 f, e) refl
  | inr f ↦ rw f refl
]

value_of-assign :
    (x k : String) (v : Disposition) (ds : Dispositions)
    → value_of x (assign k v ds) ≡ (if x == k then some v else value_of x ds)
unfolding assign
value_of-assign x k v [] = refl
value_of-assign x k v ((j, w) ∷ ds) = elim (Bool-cases (k == j)) [
  | inl e ↦
      rw (e, (eq_iff k j).0 e)
        (elim (Bool-cases (x == j)) [ inl f ↦ rw f refl | inr f ↦ rw f refl ])
  | inr e ↦ rw (e, value_of-assign x k v ds) (apart x k j _ _ _ e)
]

abbrev pub is_doubt : Option Disposition → Bool
is_doubt (some invalidated) = true
is_doubt (some reconsider) = true
is_doubt _ = false

abbrev pub doubted : String → Dispositions → Bool
doubted x ds = is_doubt (value_of x ds)

doubted-assign :
    (x k : String) (v : Disposition) (ds : Dispositions)
    → is_doubt (some v) ≡ true
    → doubted x (assign k v ds) ≡ (x == k || doubted x ds)
doubted-assign x k v ds h =
    rw (value_of-assign x k v ds)
      (elim (Bool-cases (x == k)) [ inl e ↦ rw e h | inr e ↦ rw e refl ])

-- Marking with a doubt keeps every doubt, and adds those of the marked refs.
pub doubted-mark :
    (x : String) (v : Disposition) (refs : List String) (ds : Dispositions)
    → is_doubt (some v) ≡ true
    → doubted x (mark v refs ds) ≡ (elem x refs || doubted x ds)
unfolding mark
doubted-mark x v [] ds h = refl
doubted-mark x v (k ∷ refs) ds h =
    rw (doubted-mark x v refs (assign k v ds) h, doubted-assign x k v ds h) (ground arith)

-- The dispositions stand exactly for the collected records.
abbrev pub Keyed : Records → Dispositions → Type 0
Keyed records ds = (x : String) → has_key x ds ≡ has_key x records

or_same : (x k : String) (p : String → Bool) → p k ≡ true → (x == k || p x) ≡ p x
or_same x k p h = elim (Bool-cases (x == k)) [
  | inl e ↦ rw ((eq_iff x k).0 e, h) (ground arith)
  | inr e ↦ rw e refl
]

mark-Keyed :
    (records : Records) (v : Disposition) (refs : List String) (ds : Dispositions)
    → Keyed records ds
    → Keyed records (mark v (keep (λ ref. has_key ref records) refs) ds)
unfolding mark
mark-Keyed records v [] ds h = h
mark-Keyed records v (k ∷ refs) ds h = elim (Bool-cases (has_key k records)) [
  | inr e ↦ rw e (mark-Keyed records v refs ds h)
  | inl e ↦ rw e (
      mark-Keyed records v refs (assign k v ds)
        (λ x. rw (has_key-assign x k v ds, h x) (or_same x k (λ y. has_key y records) e)))
]

-- A round of the loop over the relations leaves the dispositions alone, or marks collected refs.
pub record Marks (records : Records) (rel : Relation) (g : Gathered) : Type 0 where
  pub value : Disposition
  pub refs : List String
  pub doubts : is_doubt (some value) ≡ true
  pub result :
      (gather_relation records rel g).dispositions
      ≡ mark value (keep (λ ref. has_key ref records) refs) g.dispositions

other_relation :
    (records : Records) (rel : Relation) (g : Gathered)
    → (not (has_key rel.subject_ref records) && not (has_key rel.object_ref records)) ≡ false
    → (rel.relation_type == "contradicts") ≡ false
    → (rel.relation_type == "requires-revalidation") ≡ false
    → (gather_relation records rel g).dispositions ≡ g.dispositions
unfolding gather_relation
other_relation records rel g e f h = elim (Bool-cases (rel.relation_type == "authorizes")) [
  | inl a ↦ rw (e, a) refl
  | inr a ↦ elim (Bool-cases (rel.relation_type == "supports")) [
    | inl b ↦ rw (e, a, f, h, b) refl
    | inr b ↦ rw (e, a, f, h, b) refl
  ]
]

pub gather_relation-Marks :
    (records : Records) (rel : Relation) (g : Gathered) → Marks records rel g
unfolding gather_relation mark
gather_relation-Marks records rel g =
    elim (Bool-cases
      (not (has_key rel.subject_ref records) && not (has_key rel.object_ref records))) [
        | inl e ↦ record { value = invalidated; refs = []; doubts = refl; result = rw e refl }
        | inr e ↦ elim (Bool-cases (rel.relation_type == "contradicts")) [
          | inl f ↦ record {
            value = invalidated;
            refs = rel.subject_ref ∷ rel.object_ref ∷ [];
            doubts = refl;
            result = rw (e, (eq_iff rel.relation_type "contradicts").0 f) refl;
          }
          | inr f ↦ elim (Bool-cases (rel.relation_type == "requires-revalidation")) [
            | inl h ↦ record {
              value = reconsider;
              refs = rel.subject_ref ∷ [];
              doubts = refl;
              result = rw (e, (eq_iff rel.relation_type "requires-revalidation").0 h) refl;
            }
            | inr h ↦ record {
              value = invalidated;
              refs = [];
              doubts = refl;
              result = other_relation records rel g e f h;
            }
          ]
        ]
      ]

pub gather_relations-Keyed :
    (records : Records) (rels : List Relation) (g : Gathered)
    → Keyed records g.dispositions
    → Keyed records (gather_relations records rels g).dispositions
unfolding gather_relations
gather_relations-Keyed records [] g h = h
gather_relations-Keyed records (rel ∷ rels) g h =
    let m = gather_relation-Marks records rel g in
    gather_relations-Keyed records rels (gather_relation records rel g)
      (rw m.result (mark-Keyed records m.value m.refs g.dispositions h))
