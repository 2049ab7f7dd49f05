-- ===== src/Records/Revision/Supersede.antt =====
-- `supersede`, on the canonical order of its arguments.
use portable_runtime.Base.{
  ℕ, ◌+◌, String, not, ◌&&◌, ◌||◌, Option, none, some, [], ◌∷◌, ◌==◌, if◌then◌else◌, opt_eq, elem,
}
use portable_runtime.Base.Text.{CaseMapping, is_blank}
use portable_runtime.Base.Result.{Result, ok, err}
use portable_runtime.Base.Call.{Call, get, raise_if, pure, lift, require, transaction, ◌>>=◌, ◌>>◌}
use portable_runtime.Records.Lifecycle.{is_valid_lifecycle_transition}
use portable_runtime.Records.Revision.Models.{
  RevisionRecord, Stored, stored_type, stored_status, stored_version, with_status, RecordRelation,
  Store, Error, refs_must_be_non_empty, refs_must_differ, endpoints_mismatch, invalid_lifecycle,
  revision_required, proof_not_found, applied_revision_required, proof_missing, grant_not_found,
  actor_missing, use_missing, proof_invalid, endpoints_differ, endpoints_missing, WriteChecks,
  NumberTexts, save_record, save_relation,
}
use portable_runtime.Records.Revision.Operations.{as_revision, same_endpoints, proof_holds}

-- The argument `revision`: none, the text of its ref, or the revision itself.
pub data RevisionArgument : Type 0 where
  no_revision : RevisionArgument
  by_ref : String → RevisionArgument
  by_record : RevisionRecord → RevisionArgument

abbrev pub argument_ref : RevisionArgument → Option String
argument_ref no_revision = none
argument_ref (by_ref ref) = some ref
argument_ref (by_record r) = some r.id

-- The revision that counts: the canonical one, or the given one where the store has none.
unfoldable pub canonical_revision :
    RevisionArgument → Option RevisionRecord → Result Error RevisionRecord
canonical_revision no_revision found = err revision_required
canonical_revision (by_ref ref) none = err proof_not_found
canonical_revision (by_ref ref) (some r) = ok r
canonical_revision (by_record given) none = ok given
canonical_revision (by_record given) (some r) =
    if same_endpoints r given then ok r else err endpoints_mismatch

abbrev pub lookup_text : {V : Type 0} → (String → Option V) → Option String → Option V
lookup_text find none = none
lookup_text find (some ref) = find ref

-- `value` where the source asks for a text that is not empty.
abbrev pub non_empty_text : Option String → Option String
non_empty_text none = none
non_empty_text (some t) = if t == "" then none else some t

abbrev pub non_blank_text : Option String → Option String
non_blank_text none = none
non_blank_text (some t) = if is_blank t then none else some t

module _ (c : CaseMapping) (texts : NumberTexts) (checks : WriteChecks) where
  -- All tests of the revision and of its proof; nothing is written.
  unfoldable pub require_proof :
      RevisionArgument → String → String → Call Store Error RevisionRecord
  unfolding canonical_revision
  require_proof argument old_id new_id = do
    s ← get
    r ←
        lift (
          canonical_revision argument (as_revision (lookup_text s.records (argument_ref argument))))
    raise_if (not (elem r.lifecycle_status ("applied" ∷ "verified" ∷ "accepted" ∷ [])))
        applied_revision_required
    auth_ref ← require (non_empty_text r.metadata.authorization_ref) proof_missing
    grant ← require (s.authorizations auth_ref) grant_not_found
    actor ← require (non_blank_text r.metadata.actor_ref) actor_missing
    use_ ← require (lookup_text s.authorization_uses r.metadata.authorization_use_ref) use_missing
    raise_if (not (proof_holds c texts checks grant r actor use_.authorized_at use_.authorized_at))
        proof_invalid
    raise_if
        (not (opt_eq r.revises_ref (some old_id))
          || not (opt_eq r.produces_ref (some new_id))
          || not (opt_eq r.supersedes_ref (some old_id)))
        endpoints_differ
    pure r

  -- `validate_lifecycle_transition(record.record_type, ...)`
  abbrev pub require_transition : Stored → String → String → Call Store Error Unit
  require_transition value from_status to_status =
      raise_if (not (is_valid_lifecycle_transition (stored_type value) from_status to_status))
        invalid_lifecycle

  -- The old record becomes current where it is a draft, and then superseded.
  unfoldable pub supersede_old : Stored → Call Store Error Unit
  supersede_old old =
      let draft = stored_status old == "draft" in
      let status = if draft then "current" else stored_status old in
      do
        raise_if (draft && not (is_valid_lifecycle_transition (stored_type old) "draft" "current"))
            invalid_lifecycle
        require_transition old status "superseded"
        save_record checks (with_status "superseded" (stored_version old + 1) old)

  -- The new record becomes current where it is a draft.
  unfoldable pub promote_new : Stored → Call Store Error Unit
  promote_new new s =
      if stored_status new == "draft"
      then (do
        require_transition new "draft" "current"
        save_record checks (with_status "current" (stored_version new + 1) new))
          s
      else (ok tt, s)

  abbrev pub new_relation : String → String → String → ℕ → String → Option String → RecordRelation
  new_relation relation_id old_id new_id now created_by revision_ref = record {
    id = relation_id;
    relation_type = "supersedes";
    subject_ref = new_id;
    object_ref = old_id;
    created_at = now;
    created_by = created_by;
    revision_ref = revision_ref;
  }

  -- The block of the transaction.
  unfoldable pub write_supersession :
      Stored → Stored → RecordRelation → Call Store Error RecordRelation
  unfolding supersede_old promote_new
  write_supersession old new rel = do
    supersede_old old
    promote_new new
    save_relation checks rel
    pure rel

  -- `supersede` with a store; `relation_id` and `now` are drawn for the relation.
  unfoldable pub supersede :
      String → String → RevisionArgument → String → String → ℕ → Call Store Error RecordRelation
  unfolding require_proof write_supersession
  supersede old_id new_id argument created_by relation_id now = do
    raise_if (old_id == "" || new_id == "") refs_must_be_non_empty
    raise_if (old_id == new_id) refs_must_differ
    require_proof argument old_id new_id
    s ← get
    old ← require (s.records old_id) endpoints_missing
    new ← require (s.records new_id) endpoints_missing
    transaction (
        write_supersession old new (
          new_relation relation_id old_id new_id now created_by
            (non_empty_text (argument_ref argument))))

  -- `create_supersedes_relation`, and `supersede` without a store: only the relation.
  unfoldable pub create_supersedes_relation :
      String → String → RevisionArgument → String → String → ℕ → Result Error RecordRelation
  create_supersedes_relation new_id old_id argument created_by relation_id now =
      if old_id == "" || new_id == ""
      then err refs_must_be_non_empty
      else if old_id == new_id
      then err refs_must_differ
      else ok (
          new_relation relation_id old_id new_id now created_by
            (non_empty_text (argument_ref argument)))
