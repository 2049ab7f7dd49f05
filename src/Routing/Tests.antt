-- ===== src/Routing/Tests.antt =====
-- The router at concrete requests.
use portable_runtime.Base.{
  ℕ, suc, String, ◌≡◌, refl, ◌⊎◌, true, Option, none, some, List, [], ◌∷◌, ◌==◌, if◌then◌else◌, leb,
  non_empty, All, arith,
}
use portable_runtime.Base.Dict.{Dict}
use portable_runtime.Routing.Models.{
  texts, same_value, lookup, from_zero, ProviderDescriptor, Metadata, Separation, CapabilityRequest,
  IndependenceContext, from_request, is_satisfied,
}
use portable_runtime.Routing.Router.{
  TextOrder, distinct, last_index, preference, matches, key_at_most, best, select_by_priority,
  known_references, reference_descriptors, independent, eligible, select,
}
use portable_runtime.Routing.Separation.{Separate, select-IsIndependent}

-- An order of texts by their length.
abbrev size : String → ℕ
size String.[] = 0
size (String.◌∷◌ c s) = suc (size s)

shorter-total : (a b : String) → (leb (size a) (size b) ≡ true) ⊎ (leb (size b) (size a) ≡ true)
shorter-total a b = ground arith

shorter_trans :
    (a b c : String)
    → leb (size a) (size b) ≡ true
    → leb (size b) (size c) ≡ true
    → leb (size a) (size c) ≡ true
shorter_trans a b c h k = ground arith

abbrev by_length : TextOrder
by_length = record {
  at_most = λ a b. leb (size a) (size b);
  total = shorter-total;
  transitive = shorter_trans;
}

abbrev provider : String → String → ProviderDescriptor
provider id family = record {
  id = id;
  priority = from_zero 0;
  constraints = [];
  domain = λ name. if name == "provider_family" then some family else none;
}

abbrev no_metadata : Metadata
no_metadata = record {
  independence_context = none;
  independence_constraints = none;
  independent_from = [];
  independent_on = [];
}

abbrev separation : Separation
separation = record {
  reference_provider_refs = "a" ∷ [];
  independent_from_provider_ids = [];
  independent_on = "provider_family" ∷ [];
}

abbrev request : CapabilityRequest
request = record {
  preferred_provider_ids = "b" ∷ [];
  constraints = [];
  metadata = record no_metadata { independence_context = some separation };
}

abbrev registry : Option (Dict ProviderDescriptor)
registry = some (λ id. if id == "a" then some (provider "a" "x") else none)

abbrev candidates : List ProviderDescriptor
candidates = provider "b" "x" ∷ provider "cc" "y" ∷ provider "d" "y" ∷ []

abbrev context : IndependenceContext
context = record { reference_provider_refs = "a" ∷ []; independent_on = "provider_family" ∷ [] }

selected : select by_length registry request candidates ≡ some (provider "d" "y")
unfolding select select_by_priority best key_at_most preference distinct last_index matches eligible
    independent is_satisfied known_references from_request lookup
selected = refl

-- The same requirement among the constraints is a hard constraint as well, which no provider meets.
constraint_unmet :
    select by_length registry
      (record request {
        metadata = no_metadata;
        constraints =
            ("reference_provider_refs", texts ("a" ∷ []))
            ∷ ("independent_on", texts ("provider_family" ∷ []))
            ∷ [];
      })
      candidates
    ≡ none
unfolding select select_by_priority best key_at_most preference distinct last_index matches eligible
    independent is_satisfied known_references from_request lookup same_value
constraint_unmet = refl

-- A reference that the registry does not know is passed over, where another one is known.
unknown_reference_ignored :
    reference_descriptors registry (record context { reference_provider_refs = "a" ∷ "zz" ∷ [] })
    ≡ provider "a" "x" ∷ []
unfolding known_references
unknown_reference_ignored = refl

select-IsIndependent_example :
    All
      (Separate (provider "d" "y") (reference_descriptors registry context))
      context.independent_on
    × ((context.reference_provider_refs ≡ [])
        ⊎ (non_empty (reference_descriptors registry context) ≡ true))
unfolding from_request
select-IsIndependent_example =
    select-IsIndependent by_length registry request context candidates (provider "d" "y") refl refl
      selected
