-- ===== src/Authorization/Tests.antt =====
-- The theorems on authorization at concrete grants and requests.
use portable_runtime.Base.{
  String, ◌⊎◌, ◌≡◌, refl, ◌≢◌, ◌↔◌, true, false, Option, none, some, List, [], ◌∷◌, arith, Any,
}
use portable_runtime.Base.Text.{CaseMapping, is_blank, drop_suffix}
use portable_runtime.Base.Result.{ok}
use portable_runtime.Authorization.Models.{
  write_local, effect_text, Request, AuthorizationGrant, AuthorizationUse,
}
use portable_runtime.Authorization.Match.{
  effect_order, norm_cap, capability_matches, resource_matches, effect_level, effect_allows,
  conditions_satisfied,
}
use portable_runtime.Authorization.Check.{
  is_authorized_for, validate_grant, is_grant_valid, create_authorization_use,
  authorization_use_covers_request,
}
use portable_runtime.Authorization.History.{revoke, created_use_survives_revocation}
use portable_runtime.Authorization.Bounds.{is_authorized_for_iff, Authorizes}
use portable_runtime.Authorization.Validity.{authorized_grant_valid}
use portable_runtime.Authorization.Patterns.{
  capability_matches_iff, resource_matches_iff, Covers, InScope,
}

-- A case mapping that has no capital letter to change.
abbrev caseless : CaseMapping
caseless = record { lower = λ s. s; lower_plain = λ s h. refl }

abbrev grant : AuthorizationGrant
grant = record {
  id = "authz_1";
  principal_ref = "owner";
  grantee_ref = "agent";
  allowed_capabilities = "code.*" ∷ [];
  resource_scope = "repo/a" ∷ [];
  effect_ceiling = some "write-local";
  valid_from = 10;
  expires_at = some 100;
  conditions = [];
  typed_conditions = [];
  revocable = true;
  revoked_at = none;
  source_decision_ref = none;
  subject_version_refs = "v1" ∷ [];
}

abbrev request : Request
request = record {
  capability = "code.edit";
  actor_ref = "agent";
  resource_ref = some "repo/a/b";
  subject_version_refs = "v1" ∷ [];
  effect_class = write_local;
  lease_generation = none;
}

request_authorized : is_authorized_for caseless request grant 20 ≡ true
unfolding is_authorized_for is_blank capability_matches norm_cap resource_matches drop_suffix
    effect_allows effect_level effect_order effect_text conditions_satisfied
request_authorized = refl

-- An approval of version v1 does not serve for version v2.
other_version_refused :
    is_authorized_for caseless (record request { subject_version_refs = "v2" ∷ [] }) grant 20
    ≡ false
unfolding is_authorized_for is_blank capability_matches norm_cap resource_matches drop_suffix
    effect_allows effect_level effect_order effect_text conditions_satisfied
other_version_refused = refl

abbrev used : AuthorizationUse
used = record {
  id = "authuse_1";
  authorization_ref = "authz_1";
  capability = "code.edit";
  actor_ref = "agent";
  resource_ref = "repo/a/b";
  effect_class = write_local;
  subject_version_refs = "v1" ∷ [];
  authorized_at = 20;
}

use_created : create_authorization_use caseless "authuse_1" grant request 20 ≡ ok used
unfolding create_authorization_use is_blank
use_created = rw request_authorized

abbrev other_request : Request
other_request = record request { capability = "code.read" }

created_use_survives_revocation_example :
    (authorization_use_covers_request caseless used grant request ≡ true)
    × (authorization_use_covers_request caseless used (revoke 30 grant) request ≡ true)
    × (is_authorized_for caseless other_request (revoke 30 grant) 35 ≡ false)
created_use_survives_revocation_example =
    created_use_survives_revocation caseless "authuse_1" grant request 20 30 used other_request 35
      use_created (omega arith) (omega arith)

is_authorized_for_iff_example :
    (is_authorized_for caseless request grant 20 ≡ true) ↔ Authorizes caseless grant request 20
is_authorized_for_iff_example = is_authorized_for_iff caseless request grant 20

authorized_grant_valid_example :
    (validate_grant caseless grant 20 ≡ []) × (is_grant_valid caseless grant 20 ≡ true)
authorized_grant_valid_example =
    authorized_grant_valid caseless request grant 20 (λ e. cc e) request_authorized

capability_matches_iff_example :
    (capability_matches caseless ("code.*" ∷ []) "codex" ≡ true)
    ↔ Any (λ pat. Covers (norm_cap caseless pat) (norm_cap caseless "codex")) ("code.*" ∷ [])
capability_matches_iff_example = capability_matches_iff caseless ("code.*" ∷ []) "codex"

resource_matches_iff_example : (resource_matches ("repo/a" ∷ []) (some "repo/ab") ≡ true) ↔ (
    (◌≡◌ {A = List String} ("repo/a" ∷ []) [])
    ⊎ ((r : String) × (◌≡◌ {A = Option String} (some "repo/ab") (some r))
        × (r ≢ "")
        × Any (λ pat. InScope pat r) ("repo/a" ∷ [])))
resource_matches_iff_example = resource_matches_iff ("repo/a" ∷ []) (some "repo/ab")
