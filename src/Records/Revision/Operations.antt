-- ===== src/Records/Revision/Operations.antt =====
-- `create_revision`, `apply_revision` and `supersede`, on the canonical order of their arguments. The
-- caller's object, which `apply_revision` brings up to date with the result, is not kept.
use Prim.Native.String.{◌++◌}
use portable_runtime.Base.{
  ℕ, ◌+◌, String, Bool, false, not, ◌&&◌, ◌||◌, Option, none, some, is_some, List, [], ◌∷◌, ◌==◌,
  if◌then◌else◌, opt_eq, eqb, elem, any, non_empty,
}
use portable_runtime.Base.Text.{CaseMapping, is_blank}
use portable_runtime.Base.Dict.{put}
use portable_runtime.Base.Result.{Result, ok, err}
use portable_runtime.Base.Call.{Call, get, raise_if, pure, lift, require, ◌>>=◌, ◌>>◌}
use portable_runtime.Authorization.Models.{
  AuthorizationGrant, AuthorizationUse, Request, write_local,
}
use portable_runtime.Authorization.Check.{
  is_authorized_for, validate_grant, create_authorization_use, UseError,
}
use portable_runtime.Records.Lifecycle.{is_valid_lifecycle_transition}
use portable_runtime.Records.Revision.Models.{
  Metadata, RevisionRecord, Stored, revision, stored_type, Store, Error, refs_must_be_non_empty,
  refs_must_differ, endpoints_required, canonical_revision_required, endpoints_mismatch,
  cannot_apply, grant_required, actor_required, subject_required, resource_mismatch,
  effect_class_fixed, authorization_rejected, use_refused, invalid_lifecycle, WriteChecks,
  NumberTexts, save_record,
}

abbrev pub no_metadata : Metadata
no_metadata = record {
  authorization_ref = none;
  actor_ref = none;
  resource_ref = none;
  effect_class = none;
  authorization_use_ref = none;
  legacy_actor_identity = none;
}

abbrev pub or_given : Option String → String → String
or_given none x = x
or_given (some s) x = s

-- `create_revision`, on refs that are texts; `id` is the fresh identifier.
unfoldable pub create_revision :
    String → String → String → Option String → String → String → Result Error RevisionRecord
create_revision id revises_ref produces_ref subject_ref created_by lifecycle_status =
    if revises_ref == "" || produces_ref == ""
    then err refs_must_be_non_empty
    else if revises_ref == produces_ref
    then err refs_must_differ
    else ok (record {
      id = id;
      lifecycle_status = lifecycle_status;
      version = 1;
      subject_ref = or_given subject_ref revises_ref;
      revises_ref = some revises_ref;
      produces_ref = some produces_ref;
      supersedes_ref = some revises_ref;
      created_by = created_by;
      metadata = no_metadata;
    })

abbrev pub as_revision : Option Stored → Option RevisionRecord
as_revision (some (revision r)) = some r
as_revision _ = none

-- `get_record(ref) if ref else None`
abbrev pub find_ref : Store → Option String → Option Stored
find_ref s none = none
find_ref s (some ref) = if ref == "" then none else s.records ref

abbrev pub same_type : Option Stored → Option Stored → Bool
same_type (some a) (some b) = stored_type a == stored_type b
same_type _ _ = false

-- The fields that the canonical revision has to share with the one at hand.
unfoldable pub same_endpoints : RevisionRecord → RevisionRecord → Bool
same_endpoints a b =
    eqb a.version b.version
    && a.subject_ref == b.subject_ref
    && opt_eq a.revises_ref b.revises_ref
    && opt_eq a.produces_ref b.produces_ref
    && opt_eq a.supersedes_ref b.supersedes_ref

-- `actor_ref`, or the grantee under the compatibility profile, with the mark that it leaves.
unfoldable pub actual_actor :
    Option String → Option String → AuthorizationGrant → Option (String × Option String)
actual_actor actor_ref legacy_profile grant =
    let given = or_given actor_ref "" in
    if not (is_blank given)
    then some (given, none)
    else if opt_eq legacy_profile (some "grant-grantee-compat")
    then some (grant.grantee_ref, some "grant-grantee-compat")
    else none

-- The statuses that are left on the way to `applied`, each checked against the machine.
unfoldable pub advance : List String → String → Result Error String
advance [] status = ok status
advance (next ∷ targets) status =
    let rest = advance targets next in
    if is_valid_lifecycle_transition "Revision" status next then rest else err invalid_lifecycle

abbrev pub apply_targets : String → List String
apply_targets status =
    if status == "proposed" then "authorized" ∷ "applied" ∷ [] else "applied" ∷ []

abbrev pub use_or_refuse : Result UseError AuthorizationUse → Call Store Error AuthorizationUse
use_or_refuse (ok value) s = (ok value, s)
use_or_refuse (err e) s = (err use_refused, s)

-- A metadata key that is written in some cases only.
abbrev pub or_kept : Option String → Option String → Option String
or_kept none kept = kept
or_kept (some new) kept = some new

-- `stored_revision.model_copy(update=...)`, with the status that it is left in.
abbrev pub applied_copy :
    RevisionRecord → String → Option String → String × Option String → String → RevisionRecord
applied_copy stored status grant_id actor use_ref = record stored {
  lifecycle_status = status;
  version = stored.version + 1;
  metadata = record {
    authorization_ref = grant_id;
    actor_ref = some actor.0;
    resource_ref = some stored.subject_ref;
    effect_class = some "write-local";
    authorization_use_ref = some use_ref;
    legacy_actor_identity = or_kept actor.1 stored.metadata.legacy_actor_identity;
  };
}

-- The instants at which one call reads the clock.
pub record Instants : Type 0 where
  pub validated_at : ℕ
  pub authorized_at : ℕ
  pub used_at : ℕ

module _ (c : CaseMapping) (texts : NumberTexts) (checks : WriteChecks) where
  -- `f"{id}:v{version}"`
  abbrev pub version_ref : String → ℕ → String
  version_ref id version = id ++ (":v" ++ texts.show version)

  abbrev pub expected_versions : RevisionRecord → List String
  expected_versions r = r.id ∷ version_ref r.id r.version ∷ []

  abbrev pub apply_request : RevisionRecord → String → Request
  apply_request r actor = record {
    capability = "revision.apply";
    actor_ref = actor;
    resource_ref = some r.subject_ref;
    subject_version_refs = expected_versions r;
    effect_class = write_local;
    lease_generation = none;
  }

  -- The three tests of a proof, at the two instants of its clock readings.
  unfoldable pub proof_holds : AuthorizationGrant → RevisionRecord → String → ℕ → ℕ → Bool
  proof_holds grant r actor validated_at authorized_at =
      not (non_empty (validate_grant c grant validated_at))
      && is_authorized_for c (apply_request r actor) grant authorized_at
      && any (λ v. elem v grant.subject_version_refs) (expected_versions r)

  -- `save_authorization_use`
  unfoldable pub save_authorization_use : AuthorizationUse → Call Store Error Unit
  save_authorization_use value = do
    s ← get
    grant ← require (s.authorizations value.authorization_ref) use_refused
    let request : Request = record {
      capability = value.capability;
      actor_ref = value.actor_ref;
      resource_ref = some value.resource_ref;
      subject_version_refs = value.subject_version_refs;
      effect_class = value.effect_class;
      lease_generation = none;
    }
    raise_if
        (not (is_authorized_for c request grant value.authorized_at)
          || not (checks.accepts_use s value))
        use_refused
    λ t. (ok tt, record t { authorization_uses = put value.id value t.authorization_uses })

  -- A proposal that the store does not have is saved once its two endpoints are there.
  unfoldable pub materialize : RevisionRecord → Call Store Error Unit
  materialize r s =
      if not (is_some (s.records r.id)) && r.lifecycle_status == "proposed"
      then if same_type (find_ref s r.revises_ref) (find_ref s r.produces_ref)
        then save_record checks (revision r) s
        else (err endpoints_required, s)
      else (ok tt, s)

  -- Its writes: the use of the grant, and the revision as it is applied.
  unfoldable pub write_application :
      RevisionRecord
      → Option String
      → AuthorizationGrant
      → String × Option String
      → String
      → ℕ
      → Call Store Error RevisionRecord
  unfolding save_authorization_use
  write_application stored grant_id grant actor use_id used_at = do
    use_ ←
        use_or_refuse
          (create_authorization_use c use_id grant (apply_request stored actor.0) used_at)
    save_authorization_use use_
    status ← lift (advance (apply_targets stored.lifecycle_status) stored.lifecycle_status)
    save_record checks (revision (applied_copy stored status grant_id actor use_.id))
    pure (applied_copy stored status grant_id actor use_.id)

  -- The body of `apply_revision` on the canonical revision, from the test of its status on.
  unfoldable pub apply_stored :
      RevisionRecord
      → Option String
      → Option String
      → Option String
      → String
      → Option String
      → String
      → Instants
      → Call Store Error RevisionRecord
  apply_stored stored grant_id actor_ref resource_ref effect_class legacy use_id at = do
    raise_if
        (not (stored.lifecycle_status == "proposed")
          && not (stored.lifecycle_status == "authorized"))
        cannot_apply
    s ← get
    grant ←
        require
          (if or_given grant_id "" == "" then none else s.authorizations (or_given grant_id ""))
          grant_required
    actor ← require (actual_actor actor_ref legacy grant) actor_required
    raise_if (is_blank stored.subject_ref) subject_required
    raise_if (is_some resource_ref && not (opt_eq resource_ref (some stored.subject_ref)))
        resource_mismatch
    raise_if (not (effect_class == "write-local")) effect_class_fixed
    raise_if (not (proof_holds grant stored actor.0 at.validated_at at.authorized_at))
        authorization_rejected
    write_application stored grant_id grant actor use_id at.used_at

  -- `apply_revision`, on a store that has its calls. A revision that is applied is returned again.
  unfoldable pub apply_revision :
      RevisionRecord
      → Option String
      → Option String
      → Option String
      → String
      → Option String
      → String
      → Instants
      → Call Store Error RevisionRecord
  unfolding materialize apply_stored write_application
  apply_revision r grant_id actor_ref resource_ref effect_class legacy use_id at = do
    materialize r
    s ← get
    stored ← require (as_revision (s.records r.id)) canonical_revision_required
    raise_if (not (same_endpoints stored r)) endpoints_mismatch
    λ t.
        if stored.lifecycle_status == "applied"
        then (ok stored, t)
        else apply_stored stored grant_id actor_ref resource_ref effect_class legacy use_id at t
