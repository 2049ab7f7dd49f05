-- ===== src/Authorization/Patterns.antt =====
-- What the patterns of a grant mean, apart from how the program tests them.
use Prim.Native.String.{◌++◌}
use text.Mathlib.Text.{starts_with}
use text.Mathlib.TextBridge.{IsPrefix}
use text.Mathlib.TextLemmas.{nil-append}
use text.Mathlib.TextEquality.{starts_with_iff}
use portable_runtime.Base.{
  String, ◌≡◌, ◌↔◌, ◌⊎◌, inl, inr, true, Option, none, some, List, [], ◌∷◌, arith, eq_iff, ◌==◌,
  Any, Any-of_any, any_of_Any, Option-cases, Bool-cases, refl, ◌≢◌,
}
use portable_runtime.Base.Text.{CaseMapping, drop_suffix, drop_suffix-append, append-drop_suffix}
use portable_runtime.Authorization.Match.{
  norm_cap, pattern_matches, capability_matches, scope_matches, resource_matches,
}

-- A pattern that ends in `.*` covers its stem and what stands below the stem; `codex` is not below
-- `code`.
abbrev pub Covers : String → String → Type 0
Covers p req =
    (p ≡ "*")
    ⊎ (p ≡ req)
    ⊎ ((stem : String) × (p ≡ stem ++ ".*") × ((req ≡ stem) ⊎ IsPrefix (stem ++ ".") req))

below_iff :
    (stem req : String) → (starts_with req (stem ++ ".") ≡ true) ↔ IsPrefix (stem ++ ".") req
below_iff stem req = starts_with_iff req (stem ++ ".")

Covers-of_match : (p req : String) → pattern_matches p req ≡ true → Covers p req
Covers-of_match p req h = elim (Bool-cases (p == "*")) [
  | inl e ↦ inl ((eq_iff p "*").0 e)
  | inr ne ↦ elim (Bool-cases (p == req)) [
    | inl e ↦ inr (inl ((eq_iff p req).0 e))
    | inr nr ↦ elim (Option-cases (drop_suffix ".*" p)) [
      | inl e ↦ absurd (ground arith)
      | inr (stem, e) ↦ inr (
          inr (
            stem,
            drop_suffix-append ".*" p stem e,
            ground (arith, eq_iff req stem, below_iff stem req),
          ))
    ]
  ]
]

match_of_Covers : (p req : String) → Covers p req → pattern_matches p req ≡ true
match_of_Covers p req (inl e) = ground (arith, eq_iff p "*")
match_of_Covers p req (inr (inl e)) = ground (arith, eq_iff p req)
match_of_Covers p req (inr (inr (stem, e, h))) =
    let k : drop_suffix ".*" p ≡ some stem = rw e (append-drop_suffix ".*" stem) in
    ground (arith, k, eq_iff req stem, below_iff stem req)

-- A scope entry: everything, everything that begins with what stands before a final `*`, or, where it
-- has no final `*`, one resource and what stands below it.
abbrev pub InScope : String → String → Type 0
InScope pat resource =
    ((stem : String) × (pat ≡ stem ++ "*") × IsPrefix stem resource)
    ⊎ ((drop_suffix "*" pat ≡ none) × ((resource ≡ pat) ⊎ IsPrefix (pat ++ "/") resource))

InScope-of_match :
    (pat resource : String) → scope_matches pat resource ≡ true → InScope pat resource
InScope-of_match pat resource h = elim (Bool-cases (pat == "*")) [
  | inl e ↦ inl ("", (eq_iff pat "*").0 e, (resource, nil-append resource))
  | inr ne ↦ elim (Option-cases (drop_suffix "*" pat)) [
    | inl e ↦ inr (e, ground (arith, eq_iff resource pat, starts_with_iff resource (pat ++ "/")))
    | inr (stem, e) ↦
        inl (stem, drop_suffix-append "*" pat stem e, ground (arith, starts_with_iff resource stem))
  ]
]

match_of_InScope :
    (pat resource : String) → InScope pat resource → scope_matches pat resource ≡ true
match_of_InScope pat resource (inl (stem, e, h)) =
    let k : drop_suffix "*" pat ≡ some stem = rw e (append-drop_suffix "*" stem) in
    ground (arith, k, starts_with_iff resource stem)
match_of_InScope pat resource (inr (e, h)) =
    ground (arith, eq_iff resource pat, starts_with_iff resource (pat ++ "/"))

scope_admits :
    (s : String) (scope : List String) (r x : String)
    → some r ≡ some x
    → x ≢ ""
    → Any (λ pat. InScope pat x) (s ∷ scope)
    → resource_matches (s ∷ scope) (some r) ≡ true
unfolding resource_matches
scope_admits s scope r x e ne m =
    let same : r ≡ x = cc in
    rw same (
      ground (
        arith,
        eq_iff x "",
        any_of_Any (λ pat. scope_matches pat x) (λ pat. InScope pat x)
            (λ pat. match_of_InScope pat x) (s ∷ scope) m,
      ))

-- A scope with entries admits exactly the non-empty resources that one of its entries covers; a scope
-- without entries admits every request, also one that names no resource.
pub resource_matches_iff :
    (scope : List String) (resource : Option String)
    → (resource_matches scope resource ≡ true) ↔ (
        (scope ≡ [])
        ⊎ ((r : String) × (resource ≡ some r) × (r ≢ "") × Any (λ pat. InScope pat r) scope))
unfolding resource_matches
resource_matches_iff [] resource = (λ h. inl refl, λ h. refl)
resource_matches_iff (s ∷ scope) none = (λ h. cc, elim [ inl e ↦ cc e | inr (r, e, _, _) ↦ cc e ])
resource_matches_iff (s ∷ scope) (some r) = (
  λ h. inr (
    r,
    refl,
    ground (arith, eq_iff r ""),
    Any-of_any (λ pat. scope_matches pat r) (λ pat. InScope pat r) (λ pat. InScope-of_match pat r)
        (s ∷ scope) (ground arith),
  ),
  elim [ inl e ↦ cc e | inr (x, e, ne, m) ↦ scope_admits s scope r x e ne m ],
)

module _ (c : CaseMapping) where
  -- A capability is allowed exactly if some pattern of the list covers it, both normalised.
  pub capability_matches_iff :
      (allowed : List String) (requested : String)
      → (capability_matches c allowed requested ≡ true)
        ↔ Any (λ pat. Covers (norm_cap c pat) (norm_cap c requested)) allowed
  unfolding capability_matches
  capability_matches_iff allowed requested = (
    Any-of_any (λ pat. pattern_matches (norm_cap c pat) (norm_cap c requested))
        (λ pat. Covers (norm_cap c pat) (norm_cap c requested))
        (λ pat. Covers-of_match (norm_cap c pat) (norm_cap c requested)) allowed,
    any_of_Any (λ pat. pattern_matches (norm_cap c pat) (norm_cap c requested))
        (λ pat. Covers (norm_cap c pat) (norm_cap c requested))
        (λ pat. match_of_Covers (norm_cap c pat) (norm_cap c requested)) allowed,
  )
