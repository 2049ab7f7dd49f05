-- ===== src/Authorization/Models.antt =====
-- The data of records/authorization.py. A `datetime` is a number, the instant on one clock.
use portable_runtime.Base.{ℕ, String, Bool, Option, List}

pub data EffectClass : Type 0 where
  read write_local write_remote deploy admin irreversible : EffectClass

-- The literals of `EffectClass`, as the program compares them.
unfoldable pub effect_text : EffectClass → String
effect_text read = "read"
effect_text write_local = "write-local"
effect_text write_remote = "write-remote"
effect_text deploy = "deploy"
effect_text admin = "admin"
effect_text irreversible = "irreversible"

pub record TypedCondition : Type 0 where
  pub kind : String
  pub satisfied : Bool
  pub authority_ref : Option String

-- `CanonicalAuthorizationRequest`
pub record Request : Type 0 where
  pub capability : String
  pub actor_ref : String
  pub resource_ref : Option String
  pub subject_version_refs : List String
  pub effect_class : EffectClass
  pub lease_generation : Option ℕ

pub record AuthorizationGrant : Type 0 where
  pub id : String
  pub principal_ref : String
  pub grantee_ref : String
  pub allowed_capabilities : List String
  pub resource_scope : List String
  pub effect_ceiling : Option String
  pub valid_from : ℕ
  pub expires_at : Option ℕ
  pub conditions : List String
  pub typed_conditions : List TypedCondition
  pub revocable : Bool
  pub revoked_at : Option ℕ
  pub source_decision_ref : Option String
  pub subject_version_refs : List String

pub record AuthorizationUse : Type 0 where
  pub id : String
  pub authorization_ref : String
  pub capability : String
  pub actor_ref : String
  pub resource_ref : String
  pub effect_class : EffectClass
  pub subject_version_refs : List String
  pub authorized_at : ℕ
