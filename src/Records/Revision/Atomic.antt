-- ===== src/Records/Revision/Atomic.antt =====
-- `supersede` as a whole: it supersedes the old record, or it changes nothing.
use portable_runtime.Base.{ℕ, String, ◌≡◌, refl, true, false, some, ◌==◌, eq_iff}
use portable_runtime.Base.Text.{CaseMapping}
use portable_runtime.Base.Result.{Result, ok, err}
use portable_runtime.Base.Call.{after_get, after_raise_if, after_require, after_call}
use portable_runtime.Records.Revision.Models.{
  RevisionRecord, Stored, Store, Error, WriteChecks, NumberTexts,
}
use portable_runtime.Base.{subst, sym, ◌∙◌}
use portable_runtime.Records.Revision.Models.{RecordRelation, stored_type}
use portable_runtime.Records.Revision.Supersede.{
  RevisionArgument, argument_ref, non_empty_text, require_proof, supersede, write_supersession,
  new_relation,
}
use portable_runtime.Records.Lifecycle.{is_valid_lifecycle_transition}
use portable_runtime.Base.Call.{transaction_ok}
use portable_runtime.Records.Revision.Proof.{Proven, require_proof-Proven}
use portable_runtime.Base.Call.{
  IsQuiet, IsUndone, bind-IsQuiet, bind-IsUndone, require-IsQuiet, transaction-IsUndone,
}
use portable_runtime.Records.Revision.Superseding.{
  HasIds, superseded, promoted, settled_status, write_supersession-Superseded,
}

module _ (c : CaseMapping) (texts : NumberTexts) (checks : WriteChecks) where
  require_proof-IsQuiet :
      (argument : RevisionArgument) (old_id new_id : String)
      → IsQuiet (require_proof c texts checks argument old_id new_id)
  unfolding require_proof
  require_proof-IsQuiet argument old_id new_id =
      bind-IsQuiet _ _ (λ s. refl)
        (λ s.
          bind-IsQuiet _ _ (λ t. refl)
            (λ r.
              bind-IsQuiet _ _ (λ t. refl)
                (λ _. bind-IsQuiet _ _ (require-IsQuiet _ _) (λ a.
                  bind-IsQuiet _ _ (require-IsQuiet _ _) (λ g.
                    bind-IsQuiet _ _ (require-IsQuiet _ _) (λ b.
                      bind-IsQuiet _ _ (require-IsQuiet _ _) (λ u.
                        bind-IsQuiet _ _ (λ t. refl)
                          (λ _. bind-IsQuiet _ _ (λ t. refl) (λ _ t. refl)))))))))

  supersede-IsUndone :
      (old_id new_id : String) (argument : RevisionArgument) (created_by relation_id : String)
      (now : ℕ)
      → IsUndone (supersede c texts checks old_id new_id argument created_by relation_id now)
  unfolding supersede
  supersede-IsUndone old_id new_id argument created_by relation_id now =
      bind-IsUndone _ _ (λ t. refl)
        (λ _.
          bind-IsUndone _ _ (λ t. refl)
            (λ _. bind-IsUndone _ _ (require_proof-IsQuiet argument old_id new_id) (λ _.
              bind-IsUndone _ _ (λ s. refl)
                (λ s. bind-IsUndone _ _ (require-IsQuiet _ _) (λ old.
                  bind-IsUndone _ _ (require-IsQuiet _ _) (λ new. transaction-IsUndone _))))))

  -- A supersession of the record `old_id` by `new_id`, from the store `s` to `s'`.
  pub record Supersession (old_id new_id : String) (argument : RevisionArgument)
      (relation_id : String) (s : Store) (out : RecordRelation) (s' : Store) : Type 0 where
    pub r : RevisionRecord
    pub proof : Proven c texts checks argument old_id new_id s r
    pub old : Stored
    pub new : Stored
    pub old_before : s.records old_id ≡ some old
    pub new_before : s.records new_id ≡ some new
    pub allowed :
        is_valid_lifecycle_transition (stored_type old) (settled_status old) "superseded" ≡ true
    pub old_after : s'.records old_id ≡ some (superseded old)
    pub new_after : s'.records new_id ≡ some (promoted new)
    pub related : s'.relations relation_id ≡ some out
    pub subject : out.subject_ref ≡ new_id
    pub object : out.object_ref ≡ old_id

  -- What `supersede` answers, and the store that it leaves.
  abbrev pub Answers :
      String
      → String
      → RevisionArgument
      → String
      → Store
      → Result Error RecordRelation
      → Store
      → Type 0
  Answers old_id new_id argument relation_id s (ok out) s' =
      Supersession old_id new_id argument relation_id s out s'
  Answers old_id new_id argument relation_id s (err e) s' = s' ≡ s

  finish :
      (old_id new_id : String) (argument : RevisionArgument) (relation_id : String) (s t s' : Store)
      (r : RevisionRecord)
      → Proven c texts checks argument old_id new_id s r
      → t ≡ s
      → (old new : Stored) → t.records old_id ≡ some old
      → t.records new_id ≡ some new
      → (rel out : RecordRelation) → HasIds s
      → (old_id == new_id) ≡ false
      → rel.id ≡ relation_id
      → rel.subject_ref ≡ new_id
      → rel.object_ref ≡ old_id
      → write_supersession c texts checks old new rel t ≡ (ok out, s')
      → Supersession old_id new_id argument relation_id s out s'
  finish old_id new_id argument relation_id s t s' r proof quiet old new is_old is_new rel out ids
        apart e1 e2 e3 h =
      let was_old = subst (λ u. u.records old_id ≡ some old) quiet is_old in
      let was_new = subst (λ u. u.records new_id ≡ some new) quiet is_new in
      let id_old = ids old_id old was_old in
      let id_new = ids new_id new was_new in
      let w =
        write_supersession-Superseded c texts checks old new rel out t s'
          (λ p. cc (apart, (eq_iff old_id new_id).1 (sym id_old ∙ (p ∙ id_new))))
          (subst (λ k. t.records k ≡ some new) (sym id_new) is_new) h in
      record {
        r = r;
        proof = proof;
        old = old;
        new = new;
        old_before = was_old;
        new_before = was_new;
        allowed = w.allowed;
        old_after = subst (λ k. s'.records k ≡ some (superseded old)) id_old w.old_after;
        new_after = subst (λ k. s'.records k ≡ some (promoted new)) id_new w.new_after;
        related = subst (λ k. s'.relations k ≡ some out) e1 (rw w.returned w.related);
        subject = rw w.returned e2;
        object = rw w.returned e3;
      }

  pub supersede-Proven :
      (old_id new_id : String) (argument : RevisionArgument) (created_by relation_id : String)
      (now : ℕ) (s s' : Store) (out : RecordRelation)
      → supersede c texts checks old_id new_id argument created_by relation_id now s ≡ (ok out, s')
      → (r : RevisionRecord) × Proven c texts checks argument old_id new_id s r
  unfolding supersede
  supersede-Proven old_id new_id argument created_by relation_id now s s' out h =
      let (_, h1) = after_raise_if s s' out _ _ _ h in
      let (_, h2) = after_raise_if s s' out _ _ _ h1 in
      let (r, t, proved, _) = after_call _ _ s s' out h2 in
      (r, (require_proof-Proven c texts checks argument old_id new_id s t r proved).0)

  supersede-Supersession :
      (old_id new_id : String) (argument : RevisionArgument) (created_by relation_id : String)
      (now : ℕ) (s s' : Store) (out : RecordRelation)
      → HasIds s
      → supersede c texts checks old_id new_id argument created_by relation_id now s ≡ (ok out, s')
      → Supersession old_id new_id argument relation_id s out s'
  unfolding supersede
  supersede-Supersession old_id new_id argument created_by relation_id now s s' out ids h =
      let (_, h1) = after_raise_if s s' out _ _ _ h in
      let (apart, h2) = after_raise_if s s' out _ _ _ h1 in
      let (r, t, proved, h3) = after_call _ _ s s' out h2 in
      let (proof, quiet) =
        require_proof-Proven c texts checks argument old_id new_id s t r proved in
      let (old, is_old, h4) = after_require t s' out _ _ _ (after_get t s' out _ h3) in
      let (new, is_new, h5) = after_require t s' out _ _ _ h4 in
      let rel =
        new_relation c texts checks relation_id old_id new_id now created_by
          (non_empty_text (argument_ref argument)) in
      let h6 = transaction_ok (write_supersession c texts checks old new rel) t s' out h5 in
      finish old_id new_id argument relation_id s t s' r proof quiet old new is_old is_new rel out
        ids apart refl refl refl h6

  -- If every record stands under its id, `supersede` either raises, and the store is as before, or it
  -- returns a relation from the new to the old id, which is saved. Then the old record, from a status
  -- that may be superseded, is superseded in its next version, the new one is current in its next
  -- version where it was a draft and else as before, and a revision from the old to the new record is
  -- applied, verified or accepted, with a grant in the store that authorizes it.
  pub supersede-Answers :
      (old_id new_id : String) (argument : RevisionArgument) (created_by relation_id : String)
      (now : ℕ) (s s' : Store) (answer : Result Error RecordRelation)
      → HasIds s
      → supersede c texts checks old_id new_id argument created_by relation_id now s ≡ (answer, s')
      → Answers old_id new_id argument relation_id s answer s'
  supersede-Answers old_id new_id argument created_by relation_id now s s' (ok out) ids h =
      supersede-Supersession old_id new_id argument created_by relation_id now s s' out ids h
  supersede-Answers old_id new_id argument created_by relation_id now s s' (err e) ids h =
      supersede-IsUndone old_id new_id argument created_by relation_id now s s' e h
