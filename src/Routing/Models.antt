-- ===== src/Routing/Models.antt =====
-- The requests and descriptors that the router reads, and `IndependenceContext`.
use portable_runtime.Base.{
  ℕ, String, Bool, true, false, not, ◌&&◌, ◌||◌, Option, none, some, List, [], ◌∷◌, ◌==◌,
  if◌then◌else◌, opt_eq, leb, eqb, all, non_empty,
}
use portable_runtime.Base.Dict.{Dict}

-- A value of a `constraints` dict: None, a text, a list of texts, or a mapping of texts.
pub data Value : Type 0 where
  nothing : Value
  text : String → Value
  texts : List String → Value
  mapping : List (String × Option String) → Value

abbrev pub Constraints : Type 0
Constraints = List (String × Value)

unfoldable pub same_texts : List String → List String → Bool
same_texts [] [] = true
same_texts [] (_ ∷ _) = false
same_texts (_ ∷ _) [] = false
same_texts (a ∷ as_) (b ∷ bs) = a == b && same_texts as_ bs

-- Equality of two mappings, on entries in the order of their keys.
unfoldable pub same_mapping : List (String × Option String) → List (String × Option String) → Bool
same_mapping [] [] = true
same_mapping [] (_ ∷ _) = false
same_mapping (_ ∷ _) [] = false
same_mapping ((k, v) ∷ rest) ((j, w) ∷ others) = k == j && opt_eq v w && same_mapping rest others

-- `a == b`
unfoldable pub same_value : Value → Value → Bool
unfolding same_texts same_mapping
same_value nothing nothing = true
same_value (text a) (text b) = a == b
same_value (texts xs) (texts ys) = same_texts xs ys
same_value (mapping m) (mapping n) = same_mapping m n
same_value _ _ = false

-- `constraints.get(key)`
unfoldable pub lookup : String → Constraints → Value
lookup key [] = nothing
lookup key ((k, v) ∷ rest) = let other = lookup key rest in if key == k then v else other

-- An `int`: a number from 0 on, or the negative one that is so far below 0.
pub data Priority : Type 0 where
  from_zero below_zero : ℕ → Priority

-- `a >= b`
abbrev pub at_least : Priority → Priority → Bool
at_least (from_zero a) (from_zero b) = leb b a
at_least (from_zero a) (below_zero b) = true
at_least (below_zero a) (from_zero b) = eqb a 0 && eqb b 0
at_least (below_zero a) (below_zero b) = leb a b

-- `domain` is `getattr(descriptor, name, None)` on the failure domains.
pub record ProviderDescriptor : Type 0 where
  pub id : String
  pub priority : Priority
  pub constraints : Constraints
  pub domain : Dict String

-- The keys of the metadata that state independence; a key that is absent is an empty list.
pub record Separation : Type 0 where
  pub reference_provider_refs : List String
  pub independent_from_provider_ids : List String
  pub independent_on : List String

pub record Metadata : Type 0 where
  pub independence_context : Option Separation
  pub independence_constraints : Option Separation
  pub independent_from : List String
  pub independent_on : List String

pub record CapabilityRequest : Type 0 where
  pub preferred_provider_ids : List String
  pub constraints : Constraints
  pub metadata : Metadata

pub record IndependenceContext : Type 0 where
  pub reference_provider_refs : List String
  pub independent_on : List String

-- `a or b` on lists.
abbrev pub or_list : List String → List String → List String
or_list [] ys = ys
or_list (x ∷ xs) ys = x ∷ xs

-- A list of refs or dimensions; another value counts as none.
abbrev pub as_texts : Value → List String
as_texts (texts xs) = xs
as_texts _ = []

-- `independent_from`, where a text is the list of itself.
abbrev pub one_or_more : Value → List String
one_or_more (texts xs) = xs
one_or_more (text x) = if x == "" then [] else x ∷ []
one_or_more _ = []

-- The end of `from_request`: what `constraints` and `independent_from` state.
unfoldable pub from_constraints : Metadata → Constraints → Option IndependenceContext
unfolding lookup
from_constraints meta constraints =
    let refs =
      or_list (as_texts (lookup "reference_provider_refs" constraints))
        (as_texts (lookup "independent_from_provider_ids" constraints)) in
    let dims =
      or_list (as_texts (lookup "independent_on" constraints))
        (as_texts (lookup "required_independence" constraints)) in
    let refs2 =
      or_list meta.independent_from (one_or_more (lookup "independent_from" constraints)) in
    if non_empty refs || non_empty dims
    then some (record { reference_provider_refs = refs; independent_on = dims })
    else if non_empty refs2
    then some (record { reference_provider_refs = refs2; independent_on = meta.independent_on })
    else none

abbrev pub stated :
    Option Separation → Option Separation → Option IndependenceContext → Option IndependenceContext
stated (some context) ind other = some (record {
  reference_provider_refs = context.reference_provider_refs;
  independent_on = context.independent_on;
})
stated none (some ind) other = some (record {
  reference_provider_refs = or_list ind.reference_provider_refs ind.independent_from_provider_ids;
  independent_on = ind.independent_on;
})
stated none none other = other

-- `IndependenceContext.from_request`. The fallback of `dims` on `independence_constraints` reads a
-- mapping that is absent or empty there, since another one has been taken before.
unfoldable pub from_request : CapabilityRequest → Option IndependenceContext
unfolding from_constraints
from_request request =
    stated request.metadata.independence_context request.metadata.independence_constraints
      (from_constraints request.metadata request.constraints)

-- One reference against a value of the candidate.
abbrev pub differs_from : String → Option String → Bool
differs_from value none = false
differs_from value (some w) = not (value == w)

abbrev pub separate_on : Option String → String → List ProviderDescriptor → Bool
separate_on none dim references = false
separate_on (some value) dim references = all (λ r. differs_from value (r.domain dim)) references

-- `is_satisfied`, without its message.
unfoldable pub is_satisfied : List String → ProviderDescriptor → List ProviderDescriptor → Bool
is_satisfied dims candidate references =
    all (λ dim. separate_on (candidate.domain dim) dim references) dims
