-- ===== src/Routing/Router.antt =====
-- `DeterministicPriorityRouting.select` and `ConstraintRouter.select`.
use portable_runtime.Base.{
  ℕ, suc, String, ◌≡◌, ◌⊎◌, Bool, true, not, ◌&&◌, ◌||◌, Option, none, some, is_some, List, [], ◌∷◌,
  ◌==◌, if◌then◌else◌, opt_eq, ltb, eqb, elem, all, keep, non_empty,
}
use portable_runtime.Base.Dict.{Dict}
use portable_runtime.Routing.Models.{
  Value, mapping, Constraints, same_value, lookup, at_least, ProviderDescriptor, CapabilityRequest,
  IndependenceContext, from_request, is_satisfied,
}

-- Python's order of texts, of which only this is used: it is total and transitive.
pub record TextOrder : Type 0 where
  pub at_most : String → String → Bool
  pub total : (a b : String) → (at_most a b ≡ true) ⊎ (at_most b a ≡ true)
  pub transitive : (a b c : String) → at_most a b ≡ true → at_most b c ≡ true → at_most a c ≡ true

-- `len(preferred)`: the number of different ids.
unfoldable pub distinct : List String → ℕ
distinct [] = 0
distinct (x ∷ xs) = let rest = distinct xs in if elem x xs then rest else suc rest

-- `{provider_id: index for index, provider_id in enumerate(ids)}.get(id)`: the last index counts.
unfoldable pub last_index : String → ℕ → List String → Option ℕ
last_index id i [] = none
last_index id i (x ∷ xs) =
    let later = last_index id (suc i) xs in
    if is_some later then later else if id == x then some i else none

abbrev pub or_number : Option ℕ → ℕ → ℕ
or_number none n = n
or_number (some i) n = i

-- `preferred.get(descriptor.id, len(preferred))`
unfoldable pub preference : CapabilityRequest → String → ℕ
unfolding distinct last_index
preference request id =
    or_number (last_index id 0 request.preferred_provider_ids)
      (distinct request.preferred_provider_ids)

-- `hard_constraints`
abbrev pub hard_constraints : Constraints → Constraints
hard_constraints constraints =
    keep
      (λ (key, value).
        not (elem key ("required_failure_domains" ∷ "independence_constraints" ∷ [])))
      constraints

unfoldable pub matches : CapabilityRequest → ProviderDescriptor → Bool
matches request descriptor =
    all (λ (key, value). same_value (lookup key descriptor.constraints) value)
      (hard_constraints request.constraints)

module _ (order : TextOrder) where
  -- The sort key of `a` is at most that of `b`.
  unfoldable pub key_at_most : CapabilityRequest → ProviderDescriptor → ProviderDescriptor → Bool
  key_at_most request a b =
      ltb (preference request a.id) (preference request b.id)
      || (eqb (preference request a.id) (preference request b.id)
          && at_least a.priority b.priority
          && (not (at_least b.priority a.priority) || order.at_most a.id b.id))

  -- `sorted(...)[0]`: the first of those with the least key.
  unfoldable pub best :
      CapabilityRequest → ProviderDescriptor → List ProviderDescriptor → ProviderDescriptor
  best request x [] = x
  best request x (y ∷ ys) = if key_at_most request x y then best request x ys else best request y ys

  abbrev pub first_sorted : CapabilityRequest → List ProviderDescriptor → Option ProviderDescriptor
  first_sorted request [] = none
  first_sorted request (x ∷ xs) = some (best request x xs)

  -- `DeterministicPriorityRouting.select`
  unfoldable pub select_by_priority :
      CapabilityRequest → List ProviderDescriptor → Option ProviderDescriptor
  select_by_priority request candidates =
      first_sorted request (keep (λ d. matches request d) candidates)

-- The descriptors of the references that the registry knows.
unfoldable pub known_references : Dict ProviderDescriptor → List String → List ProviderDescriptor
known_references registry [] = []
known_references registry (ref ∷ refs) =
    let rest = known_references registry refs in
    elim (registry ref) [ none ↦ rest | some d ↦ d ∷ rest ]

abbrev pub reference_descriptors :
    Option (Dict ProviderDescriptor) → IndependenceContext → List ProviderDescriptor
reference_descriptors none context = []
reference_descriptors (some registry) context =
    if non_empty context.reference_provider_refs && non_empty context.independent_on
    then known_references registry context.reference_provider_refs
    else []

-- The tests of independence in the loop; without known references it is fail-closed.
unfoldable pub independent :
    IndependenceContext → List ProviderDescriptor → ProviderDescriptor → Bool
unfolding is_satisfied
independent context references candidate =
    if not (non_empty context.independent_on)
    then true
    else if non_empty references
    then is_satisfied context.independent_on candidate references
    else all (λ dim. is_some (candidate.domain dim)) context.independent_on
      && not (non_empty context.reference_provider_refs)

abbrev pub independent_if :
    Option IndependenceContext → Option (Dict ProviderDescriptor) → ProviderDescriptor → Bool
independent_if none registry candidate = true
independent_if (some context) registry candidate =
    independent context (reference_descriptors registry context) candidate

abbrev pub in_domains : Value → ProviderDescriptor → Bool
in_domains (mapping required) candidate =
    all (λ (key, value). opt_eq (candidate.domain key) value) required
in_domains _ candidate = true

-- What the loop of `ConstraintRouter.select` lets pass.
unfoldable pub eligible :
    Option (Dict ProviderDescriptor) → CapabilityRequest → ProviderDescriptor → Bool
unfolding independent
eligible registry request candidate =
    independent_if (from_request request) registry candidate
    && in_domains (lookup "required_failure_domains" request.constraints) candidate

-- `ConstraintRouter.select`
unfoldable pub select :
    TextOrder
    → Option (Dict ProviderDescriptor)
    → CapabilityRequest
    → List ProviderDescriptor
    → Option ProviderDescriptor
unfolding eligible
select order registry request candidates =
    select_by_priority order request (keep (λ d. eligible registry request d) candidates)
