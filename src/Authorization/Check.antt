-- ===== src/Authorization/Check.antt =====
-- The canonical authorization primitive of records/authorization.py. `now` is the instant that the
-- program reads from its clock where the caller gives none.
use portable_runtime.Base.{
  ℕ, String, Bool, true, false, not, ◌&&◌, ◌||◌, Option, none, some, List, [], ◌∷◌, ◌++◌, ◌==◌, leb,
  ltb, any, elem, subset, non_empty, is_some, if◌then◌else◌,
}
use portable_runtime.Base.Text.{CaseMapping, is_blank}
use portable_runtime.Base.Result.{Result, ok, ◌>>◌, raise_if}
use portable_runtime.Authorization.Models.{
  effect_text, TypedCondition, Request, AuthorizationGrant, AuthorizationUse,
}
use portable_runtime.Authorization.Match.{
  capability_matches, resource_matches, effect_level, effect_allows, conditions_satisfied,
}

-- `at is not None and at <= now`
abbrev pub passed : Option ℕ → ℕ → Bool
passed none now = false
passed (some at) now = leb at now

-- The three tests of time at the head of `is_authorized_for`.
unfoldable pub is_dead : AuthorizationGrant → ℕ → Bool
is_dead grant now =
    passed grant.revoked_at now || passed grant.expires_at now || ltb now grant.valid_from

-- The tests of `subject_version_refs` at its end.
unfoldable pub versions_allow : List String → List String → Bool
versions_allow [] [] = true
versions_allow [] (_ ∷ _) = false
versions_allow (_ ∷ _) [] = false
versions_allow (g ∷ granted) (r ∷ requested) = any (λ v. elem v (g ∷ granted)) (r ∷ requested)

-- The entries of `validate_grant`'s list, in place of its texts.
pub data GrantError : Type 0 where
  revoked expired not_yet_valid no_principal no_grantee no_capabilities free_form : GrantError
  unsatisfied : String → GrantError
  unknown_ceiling : GrantError

abbrev pub note : Bool → GrantError → List GrantError
note true e = e ∷ []
note false e = []

unfoldable pub unsatisfied_conditions : List TypedCondition → List GrantError
unsatisfied_conditions [] = []
unsatisfied_conditions (tc ∷ rest) =
    note (not tc.satisfied) (unsatisfied tc.kind) ++ unsatisfied_conditions rest

pub data UseError : Type 0 where
  not_authorized ref_required fields_required versions_required : UseError

-- `AuthorizationUse._validate_shape`
unfoldable pub validate_use : AuthorizationUse → Result UseError AuthorizationUse
validate_use use_ = do
  raise_if (is_blank use_.authorization_ref) ref_required
  raise_if (is_blank use_.capability || is_blank use_.actor_ref || is_blank use_.resource_ref)
      fields_required
  raise_if (not (non_empty use_.subject_version_refs)) versions_required
  ok use_

-- `resource_ref or ""`
abbrev pub or_empty : Option String → String
or_empty none = ""
or_empty (some r) = r

module _ (c : CaseMapping) where
  unfoldable pub is_authorized_for : Request → AuthorizationGrant → ℕ → Bool
  unfolding is_dead versions_allow
  is_authorized_for action grant now =
      if is_dead grant now
      then false
      else if not (conditions_satisfied grant)
      then false
      else if is_blank action.capability || is_blank action.actor_ref
      then false
      else if not (capability_matches c grant.allowed_capabilities action.capability)
      then false
      else if non_empty grant.resource_scope
          && not (resource_matches grant.resource_scope action.resource_ref)
      then false
      else if not (action.actor_ref == grant.grantee_ref)
      then false
      else if not
          (effect_allows c grant.effect_ceiling (some (effect_text action.effect_class)) false true)
      then false
      else versions_allow grant.subject_version_refs action.subject_version_refs

  unfoldable pub is_authorized_for_any : Request → List AuthorizationGrant → ℕ → Bool
  is_authorized_for_any action grants now = any (λ g. is_authorized_for action g now) grants

  unfoldable pub validate_grant : AuthorizationGrant → ℕ → List GrantError
  unfolding unsatisfied_conditions
  validate_grant grant now =
      note (passed grant.revoked_at now) revoked
      ++ (note (passed grant.expires_at now) expired
          ++ (note (ltb now grant.valid_from) not_yet_valid
              ++ (note (grant.principal_ref == "") no_principal
                  ++ (note (grant.grantee_ref == "") no_grantee
                      ++ (note (not (non_empty grant.allowed_capabilities)) no_capabilities
                          ++ (note (non_empty grant.conditions) free_form
                              ++ (unsatisfied_conditions grant.typed_conditions
                                  ++ note
                                      (is_some grant.effect_ceiling
                                        && not (is_some (effect_level c grant.effect_ceiling)))
                                      unknown_ceiling)))))))

  unfoldable pub is_grant_valid : AuthorizationGrant → ℕ → Bool
  is_grant_valid grant now = not (non_empty (validate_grant grant now))

  -- `id` is the fresh identifier that the constructor draws.
  unfoldable pub create_authorization_use :
      String → AuthorizationGrant → Request → ℕ → Result UseError AuthorizationUse
  unfolding validate_use
  create_authorization_use id grant request at = do
    raise_if (not (is_authorized_for request grant at)) not_authorized
    validate_use record {
      id = id;
      authorization_ref = grant.id;
      capability = request.capability;
      actor_ref = request.actor_ref;
      resource_ref = or_empty request.resource_ref;
      effect_class = request.effect_class;
      subject_version_refs = request.subject_version_refs;
      authorized_at = at;
    }

  -- `subset`, on the sets of the two lists.
  unfoldable pub authorization_use_covers_request :
      AuthorizationUse → AuthorizationGrant → Request → Bool
  authorization_use_covers_request use_ grant request =
      if not (use_.authorization_ref == grant.id)
      then false
      else if not (use_.capability == request.capability)
      then false
      else if not (use_.actor_ref == request.actor_ref)
      then false
      else if not (use_.resource_ref == or_empty request.resource_ref)
      then false
      else if not (effect_text use_.effect_class == effect_text request.effect_class)
      then false
      else if not (subset request.subject_version_refs use_.subject_version_refs)
      then false
      else is_authorized_for request grant use_.authorized_at
