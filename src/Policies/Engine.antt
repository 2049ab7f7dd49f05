-- ===== src/Policies/Engine.antt =====
-- `PolicyEngine.evaluate`, on the decisions of its policies in their order.
use portable_runtime.Base.{
  String, Bool, true, false, not, ◌&&◌, ◌||◌, Option, none, some, List, [], ◌∷◌, ◌++◌, ◌==◌,
  if◌then◌else◌, any, non_empty,
}
use portable_runtime.Base.Text.{join}
use portable_runtime.Policies.Models.{
  Obligation, allow, deny, defer, require, allowed, denied, require_approval, require_verification,
  PolicyDecision, has_text, text_list, has_kind, sync,
}

abbrev pub is_deny : PolicyDecision → Bool
is_deny d = elim d.disposition [
  | some deny ↦ true
  | _ ↦ elim d.status [ some denied ↦ true | _ ↦ false ]
]

abbrev pub is_defer : PolicyDecision → Bool
is_defer d = elim d.disposition [ some defer ↦ true | _ ↦ false ]

abbrev pub is_require : PolicyDecision → Bool
is_require d = elim d.disposition [ some require ↦ true | _ ↦ false ]

abbrev pub asks : PolicyDecision → Bool
asks d = elim d.status [
  | some require_approval ↦ true
  | some require_verification ↦ true
  | _ ↦ false
]

-- The first decision of a list that a test holds of.
abbrev pub first : (PolicyDecision → Bool) → List PolicyDecision → Option PolicyDecision
first test [] = none
first test (d ∷ ds) = let rest = first test ds in if test d then some d else rest

-- `required.extend(dec.obligations)`, and the like for the refs.
unfoldable pub required_of : List PolicyDecision → List Obligation
required_of [] = []
required_of (d ∷ ds) =
    let rest = required_of ds in if is_require d then d.obligations ++ rest else rest

unfoldable pub reasons_of : List PolicyDecision → List String
reasons_of [] = []
reasons_of (d ∷ ds) =
    let rest = reasons_of ds in
    if is_require d
    then (if non_empty d.reason_refs
        then d.reason_refs
        else if has_text d.reason
        then text_list d.reason
        else [])
      ++ rest
    else rest

unfoldable pub refs_of : List PolicyDecision → List String
refs_of [] = []
refs_of (d ∷ ds) =
    let rest = refs_of ds in
    if is_require d
    then (if non_empty d.policy_refs then d.policy_refs else "" ∷ []) ++ rest
    else rest

unfoldable pub same_params : List (String × String) → List (String × String) → Bool
same_params [] [] = true
same_params [] (_ ∷ _) = false
same_params (_ ∷ _) [] = false
same_params ((k, v) ∷ ps) ((j, w) ∷ qs) = k == j && v == w && same_params ps qs

-- Equality of the keys by which duplicates are found.
unfoldable pub same_key : Obligation → Obligation → Bool
unfolding same_params
same_key a b = a.kind == b.kind && same_params a.params b.params

-- The obligations whose key has not been seen.
unfoldable pub unique_after : List Obligation → List Obligation → List Obligation
unfolding same_key
unique_after seen [] = []
unique_after seen (o ∷ os) =
    let rest = unique_after (o ∷ seen) os in if any (λ p. same_key o p) seen then rest else o ∷ rest

-- `_detect_obligation_conflict`: two of a kind with other parameters.
unfoldable pub conflicts : List Obligation → Bool
unfolding same_params
conflicts [] = false
conflicts (o ∷ os) =
    any (λ p. o.kind == p.kind && not (same_params o.params p.params)) os || conflicts os

abbrev pub conflict_decision : List Obligation → List String → List String → PolicyDecision
conflict_decision uniq reasons refs = record {
  disposition = some deny;
  obligations = uniq;
  reason_refs = "policy-conflict" ∷ reasons;
  policy_refs = refs;
  status = some denied;
  reason = some "policy-conflict: conflicting obligations";
}

abbrev pub require_decision : List Obligation → List String → List String → PolicyDecision
require_decision uniq reasons refs = record {
  disposition = some require;
  obligations = uniq;
  reason_refs = reasons;
  policy_refs = refs;
  status = some (if has_kind "approval" uniq then require_approval else require_verification);
  reason = some (if non_empty reasons then join ";" reasons else "requires obligations");
}

abbrev pub all_allow : PolicyDecision
all_allow = record {
  disposition = some allow;
  obligations = [];
  reason_refs = [];
  policy_refs = [];
  status = some allowed;
  reason = some "all policies allow";
}

-- The part of `evaluate` from the required obligations on.
unfoldable pub combine : List PolicyDecision → PolicyDecision
unfolding required_of reasons_of refs_of unique_after conflicts join
combine ds =
    let uniq = unique_after [] (required_of ds) in
    if non_empty (required_of ds)
    then if conflicts uniq
      then conflict_decision uniq (reasons_of ds) (refs_of ds)
      else require_decision uniq (reasons_of ds) (refs_of ds)
    else elim (first asks ds) [ some d ↦ d | none ↦ all_allow ]

abbrev pub synced : List PolicyDecision → List PolicyDecision
synced [] = []
synced (d ∷ ds) = sync d ∷ synced ds

-- `PolicyEngine.evaluate`
unfoldable pub evaluate : List PolicyDecision → PolicyDecision
unfolding sync combine
evaluate answers =
    let ds = synced answers in
    elim (first is_deny ds) [
      | some d ↦ d
      | none ↦ elim (first is_defer ds) [ some d ↦ d | none ↦ combine ds ]
    ]

-- `requires_approval` and `requires_verification`, on the decision.
unfoldable pub requires_approval : PolicyDecision → Bool
requires_approval d =
    elim d.status [ some require_approval ↦ true | _ ↦ false ]
    || (is_require d && has_kind "approval" d.obligations)

unfoldable pub requires_verification : PolicyDecision → Bool
requires_verification d =
    elim d.status [ some require_verification ↦ true | _ ↦ false ]
    || (is_require d
        && (has_kind "revalidation_before_execution" d.obligations
            || has_kind "independent_verification" d.obligations))
