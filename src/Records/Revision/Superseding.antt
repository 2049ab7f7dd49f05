-- ===== src/Records/Revision/Superseding.antt =====
-- What `supersede` has written when it returns.
use portable_runtime.Base.{
  ℕ, ◌+◌, String, ◌≡◌, refl, inl, inr, true, some, ◌==◌, if◌then◌else◌, arith, Bool-cases, eq_iff,
}
use portable_runtime.Base.Text.{CaseMapping}
use portable_runtime.Base.Dict.{Dict, put, put_self}
use portable_runtime.Records.Revision.Retry.{split_if}
use portable_runtime.Base.Result.{ok}
use portable_runtime.Base.Call.{pure_ok, after_raise_if, after_call}
use portable_runtime.Records.Revision.Models.{
  Stored, revision, plain, Store, WriteChecks, NumberTexts, stored_id,
}
use portable_runtime.Base.{◌≢◌, sym, ◌∙◌}
use portable_runtime.Records.Revision.Applying.{save_record_ok, is_true_of}
use portable_runtime.Records.Revision.Models.{
  RecordRelation, stored_type, stored_status, stored_version, with_status, save_relation,
}
use portable_runtime.Records.Revision.Supersede.{supersede_old, promote_new, write_supersession}
use portable_runtime.Records.Lifecycle.{is_valid_lifecycle_transition}

-- Every record stands in the store under its id.
abbrev pub HasIds : Store → Type 0
HasIds s = (k : String) (v : Stored) → s.records k ≡ some v → stored_id v ≡ k

stored_id-with_status :
    (status : String) (version : ℕ) (v : Stored)
    → stored_id (with_status status version v) ≡ stored_id v
stored_id-with_status status version (revision r) = refl
stored_id-with_status status version (plain r) = refl

-- The status in which the old record is superseded, and the new record as it is left.
abbrev pub settled_status : Stored → String
settled_status old = if stored_status old == "draft" then "current" else stored_status old

abbrev pub promoted : Stored → Stored
promoted new =
    if stored_status new == "draft" then with_status "current" (stored_version new + 1) new else new

abbrev pub superseded : Stored → Stored
superseded old = with_status "superseded" (stored_version old + 1) old

put_other : {V : Type 0} (k j : String) (v : V) (d : Dict V) → j ≢ k → put k v d j ≡ d j
put_other k j v d ne = elim (Bool-cases (k == j)) [
  | inl e ↦ absurd (ne (sym ((eq_iff k j).0 e)))
  | inr e ↦ rw e refl
]

module _ (c : CaseMapping) (texts : NumberTexts) (checks : WriteChecks) where
  supersede_old_ok :
      (old : Stored) (s s' : Store)
      → supersede_old c texts checks old s ≡ (ok tt, s')
      → (is_valid_lifecycle_transition (stored_type old) (settled_status old) "superseded" ≡ true)
        × (s' ≡ record s { records = put (stored_id old) (superseded old) s.records })
  unfolding supersede_old
  supersede_old_ok old s s' h =
      let (_, h1) = after_raise_if s s' tt _ _ _ h in
      let (valid, h2) = after_raise_if s s' tt _ _ _ h1 in
      (
        is_true_of c texts checks valid,
        save_record_ok c texts checks (superseded old) s s' h2
            ∙ rw (stored_id-with_status "superseded" (stored_version old + 1) old) refl,
      )

  -- What is under the ref, and under another one, once the new record has been promoted.
  promote_new_ok :
      (new : Stored) (k : String) (s s' : Store)
      → k ≢ stored_id new
      → s.records (stored_id new) ≡ some new
      → promote_new c texts checks new s ≡ (ok tt, s')
      → (s'.records (stored_id new) ≡ some (promoted new)) × (s'.records k ≡ s.records k)
  unfolding promote_new
  promote_new_ok new k s s' ne held h = elim (split_if (stored_status new == "draft") _ _ _ h) [
    | inr (e, same) ↦ let (_, kept) = pure_ok s s' tt tt same in rw (kept, e) (held, refl)
    | inl (e, run) ↦
        let (valid, saved) = after_raise_if s s' tt _ _ _ run in
        let new' = with_status "current" (stored_version new + 1) new in
        let wrote = save_record_ok c texts checks new' s s' saved in
        let id = stored_id-with_status "current" (stored_version new + 1) new in
        rw (wrote, e, id)
          (put_self (stored_id new) new' s.records, put_other (stored_id new) k new' s.records ne)
  ]

  save_relation_ok :
      (v : RecordRelation) (s s' : Store)
      → save_relation checks v s ≡ (ok tt, s')
      → s' ≡ record s { relations = put v.id v s.relations }
  unfolding save_relation
  save_relation_ok v s s' h = ground arith

  -- The writes of a supersession, from the store `s` to `s'`.
  pub record Superseded (old new : Stored) (rel out : RecordRelation) (s s' : Store) : Type 0 where
    pub allowed :
        is_valid_lifecycle_transition (stored_type old) (settled_status old) "superseded" ≡ true
    pub old_after : s'.records (stored_id old) ≡ some (superseded old)
    pub new_after : s'.records (stored_id new) ≡ some (promoted new)
    pub related : s'.relations rel.id ≡ some rel
    pub returned : out ≡ rel

  pub write_supersession-Superseded :
      (old new : Stored) (rel out : RecordRelation) (s s' : Store)
      → stored_id old ≢ stored_id new
      → s.records (stored_id new) ≡ some new
      → write_supersession c texts checks old new rel s ≡ (ok out, s')
      → Superseded old new rel out s s'
  unfolding write_supersession
  write_supersession-Superseded old new rel out s s' ne held h =
      let (_, s1, a, h1) = after_call _ _ s s' out h in
      let (_, s2, b, h2) = after_call _ _ s1 s' out h1 in
      let (_, s3, d, h3) = after_call _ _ s2 s' out h2 in
      let (er, es) = pure_ok s3 s' out rel h3 in
      let (allowed, e1) = supersede_old_ok old s s1 a in
      let held1 : s1.records (stored_id new) ≡ some new = rw e1 (
        put_other (stored_id old) (stored_id new) (superseded old) s.records (λ p. ne (sym p))
        ∙ held) in
      let (now, kept) = promote_new_ok new (stored_id old) s1 s2 ne held1 b in
      let e3 = save_relation_ok rel s2 s3 d in
      record {
        allowed = allowed;
        old_after =
            rw (es, e3) (kept ∙ rw e1 (put_self (stored_id old) (superseded old) s.records));
        new_after = rw (es, e3) now;
        related = rw (es, e3) (put_self rel.id rel s2.relations);
        returned = er;
      }
