-- ===== src/Records/Revalidation/Detect.antt =====
-- Detection, the derived layers, `assess_revalidation` and `should_block`. An operation that raises the
-- error of an empty `change_ref` returns `none`.
use portable_runtime.Base.{
  String, Bool, true, false, not, ◌||◌, Option, none, some, List, [], ◌∷◌, ◌==◌, if◌then◌else◌, map,
  elem, non_empty,
}
use portable_runtime.Base.Text.{CaseMapping}
use portable_runtime.Records.Reopen.Search.{Relation}
use portable_runtime.Records.Revalidation.Models.{
  ImpactType, warn, elevated, bounded_radius, block_next_use, require_human_review, reopen, risk,
  entry, PolicyProfile, normal, risk_for, action_for, DependencyImpact, RiskAssessment,
  RevalidationDisposition, AffectedAssessment,
}

abbrev pub typed_dependency_rules : List (String × List String)
typed_dependency_rules =
    ("evaluator", "validated-under" ∷ "evaluated-by" ∷ [])
    ∷ ("model", "validated-under" ∷ "evaluated-by" ∷ "depends-on" ∷ [])
    ∷ ("code", "executed-with" ∷ "validated-under" ∷ "depends-on" ∷ [])
    ∷ ("dataset", "measured-by" ∷ "depends-on" ∷ [])
    ∷ ("permission", "authorized-under" ∷ "depends-on" ∷ [])
    ∷ ("classification", "scoped-to" ∷ "depends-on" ∷ [])
    ∷ ("state_space", "scoped-to" ∷ "depends-on" ∷ "validated-under" ∷ [])
    ∷ ("environment", "validated-under" ∷ "executed-with" ∷ "measured-by" ∷ "depends-on" ∷ [])
    ∷ []

-- `watch`
abbrev pub watched : CaseMapping → String → List String
watched c change_type =
    entry (normal c change_type) typed_dependency_rules ("depends-on" ∷ "validated-under" ∷ [])

-- `[rid] if rid else []`
abbrev pub given : String → List String
given id = if id == "" then [] else id ∷ []

abbrev pub impact_of : String → Relation → DependencyImpact
impact_of change_ref rel = record {
  change_ref = change_ref;
  affected_ref = rel.subject_ref;
  relation_type = rel.relation_type;
  impact_type = warn;
  reason_refs = given rel.id;
}

-- The loop of `detect_dependency_impacts`, with the subjects that it has seen.
unfoldable pub detect_after :
    List String → String → List String → List Relation → List DependencyImpact
detect_after watch change_ref seen [] = []
detect_after watch change_ref seen (rel ∷ rels) =
    let rest = detect_after watch change_ref seen rels in
    let later = detect_after watch change_ref (rel.subject_ref ∷ seen) rels in
    if not (elem rel.relation_type watch)
      || not (rel.object_ref == change_ref)
      || rel.subject_ref == ""
      || elem rel.subject_ref seen
    then rest
    else impact_of change_ref rel ∷ later

unfoldable pub detect_dependency_impacts :
    CaseMapping → String → String → List Relation → Option (List DependencyImpact)
unfolding detect_after
detect_dependency_impacts c change_ref change_type rels =
    if change_ref == ""
    then none
    else some (detect_after (watched c change_type) change_ref [] rels)

unfoldable pub derive_risk_assessment :
    CaseMapping → PolicyProfile → String → DependencyImpact → RiskAssessment
unfolding risk_for
derive_risk_assessment c profile change_type impact = record {
  change_ref = impact.change_ref;
  affected_ref = impact.affected_ref;
  risk = risk_for c profile change_type;
  rationale_refs = impact.reason_refs;
}

-- `policy_ref` is the one that is passed, where it is not empty.
unfoldable pub derive_revalidation_disposition :
    CaseMapping
    → PolicyProfile
    → Option String
    → String
    → DependencyImpact
    → RevalidationDisposition
unfolding action_for
derive_revalidation_disposition c profile policy_ref change_type impact = record {
  action = action_for c profile change_type impact.relation_type;
  policy_ref = elim policy_ref [
    | none ↦ profile.profile_id
    | some ref ↦ if ref == "" then profile.profile_id else ref
  ];
  rationale_refs = impact.reason_refs;
}

-- `_sync_layers`, its first layer.
unfoldable pub sync_impact : AffectedAssessment → AffectedAssessment
sync_impact a = elim a.dependency_impact [
  | none ↦ record a {
    dependency_impact = some record {
      change_ref = a.change_ref;
      affected_ref = a.affected_ref;
      relation_type = elim a.relation_type [ none ↦ "depends-on" | some t ↦ t ];
      impact_type = a.impact_type;
      reason_refs = a.reason_refs;
    };
  }
  | some impact ↦ record a {
    impact_type = elim a.impact_type [ warn ↦ impact.impact_type | t ↦ t ];
    reason_refs = impact.reason_refs;
  }
]

unfoldable pub sync_risk : AffectedAssessment → AffectedAssessment
sync_risk a = elim a.risk_assessment [
  | none ↦ record a {
    risk_assessment = some record {
      change_ref = a.change_ref;
      affected_ref = a.affected_ref;
      risk = risk a.severity elevated bounded_radius;
      rationale_refs = a.reason_refs;
    };
  }
  | some found ↦ record a {
    severity = found.risk.severity;
    reason_refs = if non_empty found.rationale_refs then found.rationale_refs else a.reason_refs;
  }
]

unfoldable pub sync_disposition : AffectedAssessment → AffectedAssessment
sync_disposition a = elim a.revalidation_disposition [
  | none ↦ record a {
    revalidation_disposition = some record {
      action = a.required_action;
      policy_ref = "default-revalidation-policy";
      rationale_refs = a.reason_refs;
    };
  }
  | some found ↦ record a { required_action = found.action }
]

-- `_sync_layers`
unfoldable pub sync_layers : AffectedAssessment → AffectedAssessment
unfolding sync_impact sync_risk sync_disposition
sync_layers a = sync_disposition (sync_risk (sync_impact a))

-- The assessment of one impact, past its validator.
unfoldable pub assessment_of :
    CaseMapping → PolicyProfile → String → DependencyImpact → AffectedAssessment
unfolding sync_layers derive_risk_assessment derive_revalidation_disposition
assessment_of c profile change_type impact =
    let found = derive_risk_assessment c profile change_type impact in
    let disposition = derive_revalidation_disposition c profile none change_type impact in
    sync_layers record {
      change_ref = impact.change_ref;
      affected_ref = impact.affected_ref;
      impact_type = impact.impact_type;
      severity = found.risk.severity;
      required_action = disposition.action;
      reason_refs = impact.reason_refs;
      relation_type = some impact.relation_type;
      dependency_impact = some impact;
      risk_assessment = some found;
      revalidation_disposition = some disposition;
    }

unfoldable pub assess_revalidation :
    CaseMapping → PolicyProfile → String → String → List Relation → Option (List AffectedAssessment)
unfolding assessment_of detect_dependency_impacts
assess_revalidation c profile change_ref change_type rels =
    let ct = normal c change_type in
    if change_ref == "" then none else elim (detect_dependency_impacts c change_ref ct rels) [
      | none ↦ none
      | some impacts ↦ some (map (assessment_of c profile ct) impacts)
    ]

abbrev pub is_blocking : ImpactType → Bool
is_blocking block_next_use = true
is_blocking require_human_review = true
is_blocking reopen = true
is_blocking _ = false

unfoldable pub should_block : AffectedAssessment → Bool
should_block a = is_blocking (elim a.revalidation_disposition [
  | some disposition ↦ disposition.action
  | none ↦ a.required_action
])
