-- ===== src/Routing/Separation.antt =====
-- The provider that is selected under a requirement of independence.
use portable_runtime.Base.{
  String, ◌≡◌, refl, subst, ◌≢◌, ◌⊎◌, inl, inr, Bool, true, false, not, ◌&&◌, Option, none, some,
  is_some, List, [], ◌∷◌, if◌then◌else◌, all, All, All-of_all, arith, non_empty, eq_iff, and_left,
  and_right,
}
use portable_runtime.Base.Dict.{Dict}
use portable_runtime.Routing.Models.{
  ProviderDescriptor, CapabilityRequest, IndependenceContext, from_request, is_satisfied,
  separate_on, differs_from,
}
use portable_runtime.Routing.Router.{
  TextOrder, matches, reference_descriptors, independent, independent_if, eligible, select,
}
use portable_runtime.Routing.Selection.{admits, IsSelected, select-IsSelected}

-- On this dimension the candidate has a value, and every reference has another one.
abbrev pub Separate : ProviderDescriptor → List ProviderDescriptor → String → Type 0
Separate d references dim =
    (v : String) × (d.domain dim ≡ some v)
    × All (λ r. (w : String) × (r.domain dim ≡ some w) × (v ≢ w)) references

differs_from_lem :
    (v : String) (o : Option String)
    → differs_from v o ≡ true
    → (w : String) × (o ≡ some w) × (v ≢ w)
differs_from_lem v none h = cc
differs_from_lem v (some w) h = (w, refl, λ e. cc (h, (eq_iff v w).1 e))

separate_on_lem :
    (d : ProviderDescriptor) (references : List ProviderDescriptor) (dim : String)
    (o : Option String)
    → d.domain dim ≡ o
    → separate_on o dim references ≡ true
    → Separate d references dim
separate_on_lem d references dim none e h = cc
separate_on_lem d references dim (some v) e h = (
  v,
  e,
  All-of_all (λ r. differs_from v (r.domain dim))
      (λ r. (w : String) × (r.domain dim ≡ some w) × (v ≢ w))
      (λ r. differs_from_lem v (r.domain dim)) references h,
)

is_some_lem :
    (d : ProviderDescriptor) (dim : String) (o : Option String)
    → d.domain dim ≡ o
    → is_some o ≡ true
    → Separate d [] dim
is_some_lem d dim none e h = cc
is_some_lem d dim (some v) e h = (v, e, tt)

abbrev IsIndependent : IndependenceContext → List ProviderDescriptor → ProviderDescriptor → Type 0
IsIndependent context references d =
    All (Separate d references) context.independent_on
    × ((context.reference_provider_refs ≡ []) ⊎ (non_empty references ≡ true))

empty_of : {A : Type 0} (xs : List A) → non_empty xs ≡ false → xs ≡ []
empty_of [] h = refl
empty_of (x ∷ xs) h = cc

-- The test of independence on its outcome, where there are dimensions.
past_dims :
    (dims : List String) (a : Bool)
    → non_empty dims ≡ true
    → (if not (non_empty dims) then true else a) ≡ true
    → a ≡ true
past_dims [] a e h = cc
past_dims (x ∷ xs) a e h = h

independent_lem :
    (context : IndependenceContext) (references : List ProviderDescriptor) (d : ProviderDescriptor)
    → non_empty context.independent_on ≡ true
    → independent context references d ≡ true
    → IsIndependent context references d
unfolding independent is_satisfied
independent_lem context [] d some_dims h =
    let known = all (λ dim. is_some (d.domain dim)) context.independent_on in
    let unnamed = not (non_empty context.reference_provider_refs) in
    let both = past_dims context.independent_on (known && unnamed) some_dims h in
    (
      All-of_all (λ dim. is_some (d.domain dim)) (Separate d [])
          (λ dim. is_some_lem d dim (d.domain dim) refl) context.independent_on
          (and_left known unnamed both),
      inl (empty_of context.reference_provider_refs (not_true (and_right known unnamed both))),
    )
  where
    not_true : {b : Bool} → not b ≡ true → b ≡ false
    not_true {b} h = ground arith
independent_lem context (r ∷ references) d some_dims h = (
  All-of_all (λ dim. separate_on (d.domain dim) dim (r ∷ references)) (Separate d (r ∷ references))
      (λ dim. separate_on_lem d (r ∷ references) dim (d.domain dim) refl) context.independent_on
      (past_dims context.independent_on _ some_dims h),
  inr refl,
)

module _ (order : TextOrder) (registry : Option (Dict ProviderDescriptor))
    (request : CapabilityRequest) where
  selected_admits :
      (candidates : List ProviderDescriptor) (answer : Option ProviderDescriptor)
      (d : ProviderDescriptor)
      → IsSelected order registry request candidates answer
      → answer ≡ some d
      → admits registry request d ≡ true
  selected_admits candidates none d h e = cc
  selected_admits candidates (some x) d h e = subst (λ o. is_admitted o ≡ true) e h.1
    where
      is_admitted : Option ProviderDescriptor → Bool
      is_admitted none = false
      is_admitted (some y) = admits registry request y

  -- Where a request states independence on some dimensions, a provider that is selected has a value on
  -- each of them, other than the value that each reference taken from the registry has; and the request
  -- names no reference, or one of them at least is taken.
  pub select-IsIndependent :
      (context : IndependenceContext) (candidates : List ProviderDescriptor)
      (d : ProviderDescriptor)
      → from_request request ≡ some context
      → non_empty context.independent_on ≡ true
      → select order registry request candidates ≡ some d
      → All (Separate d (reference_descriptors registry context)) context.independent_on
        × ((context.reference_provider_refs ≡ [])
            ⊎ (non_empty (reference_descriptors registry context) ≡ true))
  unfolding eligible
  select-IsIndependent context candidates d states some_dims h =
      let admitted =
        selected_admits candidates (select order registry request candidates) d
          (select-IsSelected order registry request candidates) h in
      let passed = and_left (eligible registry request d) (matches request d) admitted in
      let apart = and_left (independent_if (from_request request) registry d) _ passed in
      independent_lem context (reference_descriptors registry context) d some_dims
        (subst (λ o. independent_if o registry d ≡ true) states apart)
