-- ===== src/Authorization/Match.antt =====
-- The matching helpers of records/authorization.py, over a case mapping for `str.lower`.
use text.Mathlib.Text.{starts_with}
use Prim.Native.String.{◌++◌}
use portable_runtime.Base.{
  ℕ, String, ◌≡◌, refl, ap, Bool, true, false, not, ◌&&◌, ◌||◌, Option, none, some, List, [], ◌∷◌,
  ◌==◌, leb, any, all, non_empty, arith, if◌then◌else◌,
}
use portable_runtime.Base.Text.{CaseMapping, strip, drop_suffix}
use portable_runtime.Authorization.Models.{
  EffectClass, read, write_local, write_remote, deploy, admin, irreversible, effect_text,
  AuthorizationGrant,
}

-- `EFFECT_ORDER.get(e)`
unfoldable pub effect_order : String → Option ℕ
effect_order e =
    if e == "read"
    then some 0
    else if e == "write-local"
    then some 1
    else if e == "write-remote"
    then some 2
    else if e == "deploy"
    then some 3
    else if e == "admin"
    then some 4
    else if e == "irreversible"
    then some 5
    else none

-- The place of an effect class in the order.
abbrev pub rank : EffectClass → ℕ
rank read = 0
rank write_local = 1
rank write_remote = 2
rank deploy = 3
rank admin = 4
rank irreversible = 5

pub effect_order-rank : (e : EffectClass) → effect_order (effect_text e) ≡ some (rank e)
unfolding effect_order effect_text
effect_order-rank read = refl
effect_order-rank write_local = refl
effect_order-rank write_remote = refl
effect_order-rank deploy = refl
effect_order-rank admin = refl
effect_order-rank irreversible = refl

rank-injective : (e f : EffectClass) → rank e ≡ rank f → e ≡ f
rank-injective e f h = ground arith

-- Two classes of one text are one class.
pub effect_text-injective : (e f : EffectClass) → effect_text e ≡ effect_text f → e ≡ f
effect_text-injective e f h =
    rank-injective e f (cc (effect_order-rank e, effect_order-rank f, ap effect_order h))

unfoldable pub conditions_satisfied : AuthorizationGrant → Bool
conditions_satisfied grant =
    if non_empty grant.conditions then false else all (λ tc. tc.satisfied) grant.typed_conditions

-- One round of the loop of `_capability_matches`, on normalised texts.
abbrev pub pattern_matches : String → String → Bool
pattern_matches p req = p == "*" || p == req || elim (drop_suffix ".*" p) [
  | none ↦ false
  | some prefix ↦ req == prefix || starts_with req (prefix ++ ".")
]

module _ (c : CaseMapping) where
  -- `_norm_cap`
  unfoldable pub norm_cap : String → String
  norm_cap cap = c.lower (strip cap)

  unfoldable pub capability_matches : List String → String → Bool
  capability_matches allowed requested =
      let req = norm_cap requested in any (λ pat. pattern_matches (norm_cap pat) req) allowed

  -- `_effect_level`
  unfoldable pub effect_level : Option String → Option ℕ
  effect_level none = none
  effect_level (some effect) = effect_order (c.lower (strip effect))

  abbrev pub level_allows : Option ℕ → Option ℕ → Bool
  level_allows none _ = false
  level_allows (some _) none = false
  level_allows (some req) (some ceiling) = leb req ceiling

  unfoldable pub effect_allows : Option String → Option String → Bool → Bool → Bool
  effect_allows none requested is_legacy_dict has_effect_key = true
  effect_allows (some ceiling) none is_legacy_dict has_effect_key =
      if is_legacy_dict && not has_effect_key
      then true
      else level_allows (effect_order "irreversible") (effect_level (some ceiling))
  effect_allows (some ceiling) (some requested) is_legacy_dict has_effect_key =
      level_allows (effect_level (some requested)) (effect_level (some ceiling))

-- One round of the loop of `_resource_matches`.
abbrev pub scope_matches : String → String → Bool
scope_matches pat resource = if pat == "*" then true else elim (drop_suffix "*" pat) [
  | some prefix ↦ starts_with resource prefix
  | none ↦ resource == pat || starts_with resource (pat ++ "/")
]

unfoldable pub resource_matches : List String → Option String → Bool
resource_matches [] resource = true
resource_matches (s ∷ scope) none = false
resource_matches (s ∷ scope) (some resource) =
    if resource == "" then false else any (λ pat. scope_matches pat resource) (s ∷ scope)

scope_child : resource_matches ("repo/a" ∷ []) (some "repo/a/b") ≡ true
unfolding resource_matches drop_suffix
scope_child = refl

scope_sibling : resource_matches ("repo/a" ∷ []) (some "repo/ab") ≡ false
unfolding resource_matches drop_suffix
scope_sibling = refl
