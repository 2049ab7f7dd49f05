-- ===== src/Records/Revision/Models.antt =====
-- The data of records/revision.py: revisions, the other records as far as it reads them, and the part
-- of stores/memory.py that it writes.
use portable_runtime.Base.{ℕ, String, ◌≡◌, Bool, Option, if◌then◌else◌}
use portable_runtime.Base.Dict.{Dict, put}
use portable_runtime.Base.Result.{ok, err}
use portable_runtime.Base.Call.{Call}
use portable_runtime.Authorization.Models.{AuthorizationGrant, AuthorizationUse}

-- The keys of a revision's metadata that the module writes.
pub record Metadata : Type 0 where
  pub authorization_ref : Option String
  pub actor_ref : Option String
  pub resource_ref : Option String
  pub effect_class : Option String
  pub authorization_use_ref : Option String
  pub legacy_actor_identity : Option String

pub record RevisionRecord : Type 0 where
  pub id : String
  pub lifecycle_status : String
  pub version : ℕ
  pub subject_ref : String
  pub revises_ref : Option String
  pub produces_ref : Option String
  pub supersedes_ref : Option String
  pub created_by : String
  pub metadata : Metadata

-- A record of another kind.
pub record PlainRecord : Type 0 where
  pub id : String
  pub record_type : String
  pub lifecycle_status : String
  pub version : ℕ

pub data Stored : Type 0 where
  revision : RevisionRecord → Stored
  plain : PlainRecord → Stored

abbrev pub stored_id : Stored → String
stored_id (revision r) = r.id
stored_id (plain r) = r.id

abbrev pub stored_type : Stored → String
stored_type (revision r) = "Revision"
stored_type (plain r) = r.record_type

abbrev pub stored_status : Stored → String
stored_status (revision r) = r.lifecycle_status
stored_status (plain r) = r.lifecycle_status

-- `record.model_copy(update={"lifecycle_status": status, "version": version})`
abbrev pub with_status : String → ℕ → Stored → Stored
with_status status version (revision r) =
    revision (record r { lifecycle_status = status; version = version })
with_status status version (plain r) =
    plain (record r { lifecycle_status = status; version = version })

abbrev pub stored_version : Stored → ℕ
stored_version (revision r) = r.version
stored_version (plain r) = r.version

pub record RecordRelation : Type 0 where
  pub id : String
  pub relation_type : String
  pub subject_ref : String
  pub object_ref : String
  pub created_at : ℕ
  pub created_by : String
  pub revision_ref : Option String

pub record Store : Type 0 where
  pub records : Dict Stored
  pub authorizations : Dict AuthorizationGrant
  pub authorization_uses : Dict AuthorizationUse
  pub relations : Dict RecordRelation

pub data Error : Type 0 where
  refs_must_be_non_empty refs_must_differ : Error
  endpoints_required canonical_revision_required endpoints_mismatch : Error
  cannot_apply grant_required actor_required subject_required resource_mismatch : Error
  effect_class_fixed authorization_rejected use_refused invalid_lifecycle write_refused : Error
  revision_required proof_not_found applied_revision_required proof_missing : Error
  grant_not_found actor_missing use_missing proof_invalid endpoints_differ : Error
  endpoints_missing : Error

-- The validation of a write against the whole graph: the store's own, which this module only calls.
pub record WriteChecks : Type 0 where
  pub accepts_record : Store → Stored → Bool
  pub accepts_use : Store → AuthorizationUse → Bool
  pub accepts_relation : Store → RecordRelation → Bool

-- `f"{version}"`, Python's text of an integer: different numbers have different texts.
pub record NumberTexts : Type 0 where
  pub show : ℕ → String
  pub show-injective : (m n : ℕ) → show m ≡ show n → m ≡ n

module _ (checks : WriteChecks) where
  -- `save_record`
  unfoldable pub save_record : Stored → Call Store Error Unit
  save_record value s =
      if checks.accepts_record s value
      then (ok tt, record s { records = put (stored_id value) value s.records })
      else (err write_refused, s)

  -- `save_relation`
  unfoldable pub save_relation : RecordRelation → Call Store Error Unit
  save_relation value s =
      if checks.accepts_relation s value
      then (ok tt, record s { relations = put value.id value s.relations })
      else (err write_refused, s)
