-- ===== src/Records/Revalidation/Models.antt =====
-- The layers of an assessment, and the policy profile. A dict is the list of its entries. The `id`, the
-- time and the metadata of an assessment but the relation type are left out.
use portable_runtime.Base.{String, ◌||◌, Option, none, some, List, [], ◌∷◌, ◌==◌, if◌then◌else◌}
use portable_runtime.Base.Text.{CaseMapping, strip}

pub data ImpactType : Type 0 where
  no_action warn background_revalidate block_next_use require_human_review reopen : ImpactType

pub data Severity : Type 0 where
  low_severity medium_severity high_severity critical_severity : Severity

pub data Urgency : Type 0 where
  routine elevated urgent immediate : Urgency

pub data BlastRadius : Type 0 where
  local_radius bounded_radius wide_radius systemic_radius : BlastRadius

pub record Risk : Type 0 where
  pub severity : Severity
  pub urgency : Urgency
  pub blast_radius : BlastRadius

-- `rules.get(name, default)`
abbrev pub entry : {A : Type 0} → String → List (String × A) → A → A
entry name [] default = default
entry name ((key, value) ∷ rules) default =
    let rest = entry name rules default in if key == name then value else rest

-- `name in rules`, with the value.
abbrev pub find_entry : {A : Type 0} → String → List (String × A) → Option A
find_entry name [] = none
find_entry name ((key, value) ∷ rules) =
    let rest = find_entry name rules in if key == name then some value else rest

pub record PolicyProfile : Type 0 where
  pub profile_id : String
  pub risk_rules : List (String × Risk)
  pub required_action_rules : List (String × List (String × ImpactType))

abbrev pub risk : Severity → Urgency → BlastRadius → Risk
risk severity urgency blast_radius = record {
  severity = severity;
  urgency = urgency;
  blast_radius = blast_radius;
}

abbrev pub default_risk_rules : List (String × Risk)
default_risk_rules =
    ("evaluator", risk high_severity urgent wide_radius)
    ∷ ("model", risk high_severity urgent wide_radius)
    ∷ ("code", risk medium_severity elevated bounded_radius)
    ∷ ("dataset", risk medium_severity elevated bounded_radius)
    ∷ ("permission", risk high_severity urgent wide_radius)
    ∷ ("classification", risk medium_severity elevated bounded_radius)
    ∷ ("state_space", risk critical_severity immediate systemic_radius)
    ∷ ("environment", risk high_severity urgent wide_radius)
    ∷ []

abbrev pub default_action_rules : List (String × List (String × ImpactType))
default_action_rules =
    (
      "evaluator",
      ("validated-under", block_next_use)
          ∷ ("evaluated-by", block_next_use)
          ∷ ("depends-on", background_revalidate)
          ∷ [],
    )
    ∷ (
      "model",
      ("validated-under", block_next_use)
          ∷ ("evaluated-by", block_next_use)
          ∷ ("depends-on", background_revalidate)
          ∷ [],
    )
    ∷ (
      "code",
      ("executed-with", block_next_use)
          ∷ ("validated-under", block_next_use)
          ∷ ("depends-on", background_revalidate)
          ∷ [],
    )
    ∷ ("dataset", ("measured-by", block_next_use) ∷ ("depends-on", background_revalidate) ∷ [])
    ∷ (
      "permission",
      ("authorized-under", require_human_review) ∷ ("depends-on", background_revalidate) ∷ [],
    )
    ∷ (
      "classification",
      ("scoped-to", require_human_review) ∷ ("depends-on", background_revalidate) ∷ [],
    )
    ∷ (
      "state_space",
      ("scoped-to", reopen)
          ∷ ("depends-on", background_revalidate)
          ∷ ("validated-under", block_next_use)
          ∷ [],
    )
    ∷ (
      "environment",
      ("validated-under", block_next_use)
          ∷ ("executed-with", background_revalidate)
          ∷ ("measured-by", background_revalidate)
          ∷ ("depends-on", warn)
          ∷ [],
    )
    ∷ []

abbrev pub default_profile : PolicyProfile
default_profile = record {
  profile_id = "default-revalidation-policy";
  risk_rules = default_risk_rules;
  required_action_rules = default_action_rules;
}

-- `change_type.strip().lower()`
abbrev pub normal : CaseMapping → String → String
normal c change_type = c.lower (strip change_type)

-- `risk_for`
unfoldable pub risk_for : CaseMapping → PolicyProfile → String → Risk
risk_for c profile change_type =
    entry (normal c change_type) profile.risk_rules (risk medium_severity elevated bounded_radius)

-- The action where the rules of the change do not name the relation.
abbrev pub fallback_action : String → ImpactType
fallback_action relation_type =
    if relation_type == "validated-under" || relation_type == "evaluated-by"
    then block_next_use
    else if relation_type == "authorized-under" || relation_type == "scoped-to"
    then require_human_review
    else background_revalidate

-- `action_for`
unfoldable pub action_for : CaseMapping → PolicyProfile → String → String → ImpactType
action_for c profile change_type relation_type =
    let per_type = entry (normal c change_type) profile.required_action_rules [] in
    elim (find_entry relation_type per_type) [
      | some action ↦ action
      | none ↦ fallback_action relation_type
    ]

pub record DependencyImpact : Type 0 where
  pub change_ref : String
  pub affected_ref : String
  pub relation_type : String
  pub impact_type : ImpactType
  pub reason_refs : List String

pub record RiskAssessment : Type 0 where
  pub change_ref : String
  pub affected_ref : String
  pub risk : Risk
  pub rationale_refs : List String

pub record RevalidationDisposition : Type 0 where
  pub action : ImpactType
  pub policy_ref : String
  pub rationale_refs : List String

pub record AffectedAssessment : Type 0 where
  pub change_ref : String
  pub affected_ref : String
  pub impact_type : ImpactType
  pub severity : Severity
  pub required_action : ImpactType
  pub reason_refs : List String
  pub relation_type : Option String
  pub dependency_impact : Option DependencyImpact
  pub risk_assessment : Option RiskAssessment
  pub revalidation_disposition : Option RevalidationDisposition
