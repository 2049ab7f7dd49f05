-- ===== src/Authorization/Bounds.antt =====
-- What an authorized request is bounded by: the ceiling, the versions, the scope of the grant.
use portable_runtime.Base.{
  ℕ, String, ◌≤◌, ◌≡◌, refl, ◌⊎◌, inl, inr, true, false, Option, none, some, List, [], ◌∷◌, arith,
  eq_iff, elem_iff, Any, elem, In, Any-of_any, any_of_Any, ◌↔◌, All, All-of_all, all_of_All,
  non_empty, ◌&&◌, not,
}
use portable_runtime.Base.Text.{CaseMapping, strip, is_blank}
use portable_runtime.Authorization.Models.{
  EffectClass, read, write_local, write_remote, deploy, admin, irreversible, effect_text, Request,
  AuthorizationGrant,
}
use portable_runtime.Authorization.Match.{
  rank, effect_order, effect_level, effect_allows, conditions_satisfied, capability_matches,
  resource_matches,
}
use portable_runtime.Authorization.Check.{is_authorized_for, versions_allow, passed}

-- The versions of a request and of a grant: both are absent, or some version is in both.
abbrev pub VersionsMeet : List String → List String → Type 0
VersionsMeet gs rs = ((gs ≡ []) × (rs ≡ [])) ⊎ Any (λ v. In v gs) rs

-- The instant lies in the life of the grant.
abbrev pub IsLive : AuthorizationGrant → ℕ → Type 0
IsLive g now =
    (passed g.revoked_at now ≡ false) × (passed g.expires_at now ≡ false) × (g.valid_from ≤ now)

module _ (c : CaseMapping) where
  pub effect_level-text : (e : EffectClass) → effect_level c (some (effect_text e)) ≡ some (rank e)
  unfolding effect_level effect_text effect_order strip
  effect_level-text read = rw (c.lower_plain "read" refl)
  effect_level-text write_local = rw (c.lower_plain "write-local" refl)
  effect_level-text write_remote = rw (c.lower_plain "write-remote" refl)
  effect_level-text deploy = rw (c.lower_plain "deploy" refl)
  effect_level-text admin = rw (c.lower_plain "admin" refl)
  effect_level-text irreversible = rw (c.lower_plain "irreversible" refl)

  effect_allows_mono :
      (ceiling : Option String) (e f : EffectClass)
      → rank f ≤ rank e
      → effect_allows c ceiling (some (effect_text e)) false true ≡ true
      → effect_allows c ceiling (some (effect_text f)) false true ≡ true
  unfolding effect_allows
  effect_allows_mono none e f h k = refl
  effect_allows_mono (some ceiling) e f h k =
      ground (arith, effect_level-text e, effect_level-text f)

  -- A request that is authorized stays so with any weaker effect class.
  pub weaker_effect_authorized :
      (a : Request) (g : AuthorizationGrant) (now : ℕ) (e : EffectClass)
      → rank e ≤ rank a.effect_class
      → is_authorized_for c a g now ≡ true
      → is_authorized_for c (record a { effect_class = e }) g now ≡ true
  unfolding is_authorized_for
  weaker_effect_authorized a g now e h k =
      ground (arith, effect_allows_mono g.effect_ceiling a.effect_class e)

  abbrev pub WithinCeiling : Option String → EffectClass → Type 0
  WithinCeiling none e = Unit
  WithinCeiling (some ceiling) e =
      (level : ℕ) × (effect_level c (some ceiling) ≡ some level) × (rank e ≤ level)

  no_version-In_nil : (rs : List String) → ¬ Any (λ v. In v []) rs
  no_version-In_nil [] h = h
  no_version-In_nil (r ∷ rs) (inl h) = h
  no_version-In_nil (r ∷ rs) (inr h) = no_version-In_nil rs h

  versions_allow_iff : (gs rs : List String) → (versions_allow gs rs ≡ true) ↔ VersionsMeet gs rs
  unfolding versions_allow
  versions_allow_iff [] [] = (λ h. inl (refl, refl), λ h. refl)
  versions_allow_iff [] (r ∷ rs) =
      (λ h. cc, elim [ inl e ↦ cc (e.1) | inr m ↦ absurd (no_version-In_nil (r ∷ rs) m) ])
  versions_allow_iff (g ∷ gs) [] = (λ h. cc, elim [ inl e ↦ cc (e.0) | inr m ↦ absurd m ])
  versions_allow_iff (g ∷ gs) (r ∷ rs) = (
    λ h. inr (
        Any-of_any (λ v. elem v (g ∷ gs)) (λ v. In v (g ∷ gs)) (λ v. (elem_iff v (g ∷ gs)).0)
          (r ∷ rs) h),
    elim [
      | inl e ↦ cc (e.0)
      | inr m ↦
          any_of_Any (λ v. elem v (g ∷ gs)) (λ v. In v (g ∷ gs)) (λ v. (elem_iff v (g ∷ gs)).1)
            (r ∷ rs) m
    ],
  )

  effect_allows_iff :
      (ceiling : Option String) (e : EffectClass)
      → (effect_allows c ceiling (some (effect_text e)) false true ≡ true) ↔ WithinCeiling ceiling e
  unfolding effect_allows
  effect_allows_iff none e = (λ h. tt, λ h. refl)
  effect_allows_iff (some ceiling) e = ground (arith, effect_level-text e)

  abbrev pub Authorizes : AuthorizationGrant → Request → ℕ → Type 0
  Authorizes g a now =
      IsLive g now
      × ((g.conditions ≡ []) × All (λ tc. tc.satisfied ≡ true) g.typed_conditions)
      × ((is_blank a.capability ≡ false) × (is_blank a.actor_ref ≡ false))
      × (capability_matches c g.allowed_capabilities a.capability ≡ true)
      × (resource_matches g.resource_scope a.resource_ref ≡ true)
      × (a.actor_ref ≡ g.grantee_ref)
      × WithinCeiling g.effect_ceiling a.effect_class
      × VersionsMeet g.subject_version_refs a.subject_version_refs

  conditions_satisfied_iff :
      (g : AuthorizationGrant)
      → (conditions_satisfied g ≡ true)
        ↔ ((g.conditions ≡ []) × All (λ tc. tc.satisfied ≡ true) g.typed_conditions)
  unfolding conditions_satisfied
  conditions_satisfied_iff g = (
    λ h. (
      ground arith,
      All-of_all (λ tc. tc.satisfied) (λ tc. tc.satisfied ≡ true) (λ tc e. e) g.typed_conditions
          (ground arith),
    ),
    λ h. rw (h.0) (
        all_of_All (λ tc. tc.satisfied) (λ tc. tc.satisfied ≡ true) (λ tc e. e) g.typed_conditions
          h.1),
  )

  scope_test :
      (scope : List String) (resource : Option String)
      → (non_empty scope && not (resource_matches scope resource))
        ≡ not (resource_matches scope resource)
  unfolding resource_matches
  scope_test [] resource = refl
  scope_test (s ∷ scope) resource = refl

  -- `is_authorized_for` holds exactly if the grant is live at the instant and its conditions are met,
  -- the capability and the actor of the request are not blank, the capability and the resource match
  -- those of the grant, the actor is the grantee, the effect class is within the ceiling, and the
  -- versions meet.
  pub is_authorized_for_iff :
      (a : Request) (g : AuthorizationGrant) (now : ℕ)
      → (is_authorized_for c a g now ≡ true) ↔ Authorizes g a now
  unfolding is_authorized_for
  is_authorized_for_iff a g now = (
    λ h. ground (
      arith,
      conditions_satisfied_iff g,
      scope_test g.resource_scope a.resource_ref,
      eq_iff a.actor_ref g.grantee_ref,
      effect_allows_iff g.effect_ceiling a.effect_class,
      versions_allow_iff g.subject_version_refs a.subject_version_refs,
    ),
    λ h. ground (
      arith,
      conditions_satisfied_iff g,
      scope_test g.resource_scope a.resource_ref,
      eq_iff a.actor_ref g.grantee_ref,
      effect_allows_iff g.effect_ceiling a.effect_class,
      versions_allow_iff g.subject_version_refs a.subject_version_refs,
    ),
  )
