-- ===== src/Records/Revalidation/Direct.antt =====
-- What `assess_revalidation` says of one record.
use portable_runtime.Base.{
  String, ◌≡◌, refl, sym, ap, inl, inr, Bool, false, Bool-cases, not, ◌&&◌, ◌||◌, Option, none,
  some, List, [], ◌∷◌, ◌==◌, if◌then◌else◌, map, elem, eq_iff, arith,
}
use portable_runtime.Base.Text.{CaseMapping}
use portable_runtime.Records.Reopen.Search.{Relation}
use portable_runtime.Records.Revalidation.Models.{
  PolicyProfile, normal, action_for, DependencyImpact, AffectedAssessment,
}
use portable_runtime.Records.Revalidation.Detect.{
  watched, impact_of, detect_after, detect_dependency_impacts, assessment_of, assess_revalidation,
  is_blocking, should_block, sync_layers, sync_impact, sync_risk, sync_disposition,
  derive_revalidation_disposition,
}

module _ {ℓ} {A : Type ℓ} where
  -- The first value that a test holds of.
  abbrev pub find : (A → Bool) → List A → Option A
  find test [] = none
  find test (x ∷ xs) = let rest = find test xs in if test x then some x else rest

abbrev pub mapped : {A B : Type 0} → (A → B) → Option A → Option B
mapped f none = none
mapped f (some x) = some (f x)

-- The relation says, in a way that is watched, that this record rests on the change.
abbrev pub is_direct : List String → String → String → Relation → Bool
is_direct watch change_ref s rel =
    elem rel.relation_type watch && rel.object_ref == change_ref && rel.subject_ref == s

abbrev is_dropped : List String → String → List String → Relation → Bool
is_dropped watch change_ref seen rel =
    not (elem rel.relation_type watch)
    || not (rel.object_ref == change_ref)
    || rel.subject_ref == ""
    || elem rel.subject_ref seen

eq_flip : (a b : String) → (a == b) ≡ false → (b == a) ≡ false
eq_flip a b h = elim (Bool-cases (b == a)) [
  | inl e ↦ let same = (eq_iff a b).1 (sym ((eq_iff b a).0 e)) in absurd cc
  | inr e ↦ e
]

module _ (watch : List String) (change_ref s : String) where
  detect_after_lem :
      (seen : List String) (rels : List Relation)
      → (s == "") ≡ false
      → elem s seen ≡ false
      → find (λ i. i.affected_ref == s) (detect_after watch change_ref seen rels)
        ≡ mapped (impact_of change_ref) (find (is_direct watch change_ref s) rels)
  unfolding detect_after
  detect_after_lem seen [] h k = refl
  detect_after_lem seen (rel ∷ rels) h k =
      let rest = detect_after_lem seen rels h k in
      elim (Bool-cases (rel.subject_ref == s)) [
        | inl e ↦
            let same = (eq_iff rel.subject_ref s).0 e in
            let named : (rel.subject_ref == "") ≡ false = rw same h in
            let unseen : elem rel.subject_ref seen ≡ false = rw same k in
            elim (Bool-cases (elem rel.relation_type watch)) [
              | inl w ↦ elim (Bool-cases (rel.object_ref == change_ref)) [
                | inl o ↦ rw (w, o, named, unseen, e)
                | inr o ↦ rw (w, o) rest
              ]
              | inr w ↦ rw w rest
            ]
        | inr e ↦
            let later =
              detect_after_lem (rel.subject_ref ∷ seen) rels h
                (rw (eq_flip rel.subject_ref s e) k) in
            let passed : is_direct watch change_ref s rel ≡ false = ground arith in
            elim (Bool-cases (is_dropped watch change_ref seen rel)) [
              | inl d ↦ rw (passed, d) rest
              | inr d ↦ rw (passed, d, e) later
            ]
      ]

module _ (c : CaseMapping) (profile : PolicyProfile) (ct s : String) where
  find-map :
      (impacts : List DependencyImpact)
      → mapped should_block
          (find (λ a. a.affected_ref == s) (map (assessment_of c profile ct) impacts))
        ≡ mapped
            (λ i. is_blocking (action_for c profile ct i.relation_type))
            (find (λ i. i.affected_ref == s) impacts)
  unfolding should_block assessment_of sync_layers sync_impact sync_risk sync_disposition
      derive_revalidation_disposition
  find-map [] = refl
  find-map (i ∷ impacts) = elim (Bool-cases (i.affected_ref == s)) [
    | inl e ↦ rw e
    | inr e ↦ rw e (find-map impacts)
  ]

mapped_twice :
    {A B D : Type 0} (f : A → B) (g : B → D) (o : Option A)
    → mapped g (mapped f o) ≡ mapped (λ a. g (f a)) o
mapped_twice f g none = refl
mapped_twice f g (some a) = refl

-- Whether an assessment of the record blocks its next use, if there is one.
abbrev pub blocks : String → List AffectedAssessment → Option Bool
blocks s assessments = mapped should_block (find (λ a. a.affected_ref == s) assessments)

-- For a change and a record that are named, `assess_revalidation` returns assessments: the first one of
-- the record, if there is one, blocks its next use exactly if the action of the profile for the first
-- relation that is watched from the record to the change is blocking, and there is one exactly if
-- there is such a relation.
pub assess_revalidation_lem :
    (c : CaseMapping) (profile : PolicyProfile) (change_ref change_type s : String)
    (rels : List Relation)
    → (change_ref == "") ≡ false
    → (s == "") ≡ false
    → mapped (blocks s) (assess_revalidation c profile change_ref change_type rels)
      ≡ some (
          mapped
            (λ rel. is_blocking (action_for c profile (normal c change_type) rel.relation_type))
            (find (is_direct (watched c (normal c change_type)) change_ref s) rels))
unfolding assess_revalidation detect_dependency_impacts
assess_revalidation_lem c profile change_ref change_type s rels h k =
    let ct = normal c change_type in
    let watch = watched c ct in
    let found = detect_after_lem watch change_ref s [] rels k refl in
    rw (h, find-map c profile ct s (detect_after watch change_ref [] rels), found)
      (ap some (
        mapped_twice (impact_of change_ref)
          (λ i. is_blocking (action_for c profile ct i.relation_type))
          (find (is_direct watch change_ref s) rels)))
