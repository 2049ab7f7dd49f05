-- ===== src/Authorization/History.antt =====
-- Authorization uses: what was authorized stays provable, whatever happens to the grant later.
use portable_runtime.Base.{
  ℕ, String, ◌≤◌, ◌<◌, ◌≡◌, true, false, some, arith, eq_refl, eq_iff, subset_self, subset_iff, All,
  In,
}
use portable_runtime.Base.Text.{CaseMapping}
use portable_runtime.Base.Result.{ok}
use portable_runtime.Authorization.Models.{
  effect_text, Request, AuthorizationGrant, AuthorizationUse,
}
use portable_runtime.Authorization.Match.{effect_text-injective, conditions_satisfied}
use portable_runtime.Authorization.Check.{
  is_authorized_for, create_authorization_use, authorization_use_covers_request, or_empty,
}

-- The grant as it stands once it has been revoked at the instant `t`.
abbrev pub revoke : ℕ → AuthorizationGrant → AuthorizationGrant
revoke t grant = record grant { revoked_at = some t }

module _ (c : CaseMapping) where
  pub authorized_before_revoke :
      (a : Request) (g : AuthorizationGrant) (t now : ℕ)
      → now < t
      → is_authorized_for c a g now ≡ true
      → is_authorized_for c a (revoke t g) now ≡ true
  unfolding is_authorized_for conditions_satisfied
  authorized_before_revoke a g t now before h = ground arith

  -- From the instant of its revocation on, a grant authorizes no request.
  pub denied_after_revoke :
      (a : Request) (g : AuthorizationGrant) (t now : ℕ)
      → t ≤ now
      → is_authorized_for c a (revoke t g) now ≡ false
  unfolding is_authorized_for
  denied_after_revoke a g t now h = ground arith

  -- What a use that was created holds.
  pub created_use :
      (id : String) (g : AuthorizationGrant) (r : Request) (at : ℕ) (u : AuthorizationUse)
      → create_authorization_use c id g r at ≡ ok u
      → (is_authorized_for c r g at ≡ true)
        × (u.authorization_ref ≡ g.id)
        × (u.capability ≡ r.capability)
        × (u.actor_ref ≡ r.actor_ref)
        × (u.resource_ref ≡ or_empty r.resource_ref)
        × (u.effect_class ≡ r.effect_class)
        × (u.subject_version_refs ≡ r.subject_version_refs)
        × (u.authorized_at ≡ at)
  unfolding create_authorization_use
  created_use id g r at u h = ground arith

  -- A use that was created for a request covers that request, and still does when the grant has been
  -- revoked at a later instant, although from that instant on the grant authorizes no request.
  pub created_use_survives_revocation :
      (id : String) (g : AuthorizationGrant) (r : Request) (at t : ℕ) (u : AuthorizationUse)
      (later : Request) (now : ℕ)
      → create_authorization_use c id g r at ≡ ok u
      → at < t
      → t ≤ now
      → (authorization_use_covers_request c u g r ≡ true)
        × (authorization_use_covers_request c u (revoke t g) r ≡ true)
        × (is_authorized_for c later (revoke t g) now ≡ false)
  unfolding authorization_use_covers_request
  created_use_survives_revocation id g r at t u later now h before after =
      let (live, ref, cap, actor, resource, effect, versions, when) = created_use id g r at u h in
      rw (ref, cap, actor, resource, effect, versions, when)
        (simp (eq_refl, subset_self)
          (
            live,
            authorized_before_revoke r g t at before live,
            denied_after_revoke later g t now after,
          ))

  -- A use covers a request only if the request equals it in every dimension, its versions are among
  -- those of the use, and the grant authorized it at the instant of the use.
  pub covers_exact :
      (u : AuthorizationUse) (g : AuthorizationGrant) (r : Request)
      → authorization_use_covers_request c u g r ≡ true
      → (u.authorization_ref ≡ g.id)
        × (u.capability ≡ r.capability)
        × (u.actor_ref ≡ r.actor_ref)
        × (u.resource_ref ≡ or_empty r.resource_ref)
        × (u.effect_class ≡ r.effect_class)
        × All (λ v. In v u.subject_version_refs) r.subject_version_refs
        × (is_authorized_for c r g u.authorized_at ≡ true)
  unfolding authorization_use_covers_request
  covers_exact u g r h = ground (
    arith,
    eq_iff u.authorization_ref g.id,
    eq_iff u.capability r.capability,
    eq_iff u.actor_ref r.actor_ref,
    eq_iff u.resource_ref (or_empty r.resource_ref),
    eq_iff (effect_text u.effect_class) (effect_text r.effect_class),
    effect_text-injective u.effect_class r.effect_class,
    subset_iff r.subject_version_refs u.subject_version_refs,
  )
