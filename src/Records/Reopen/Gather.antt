-- ===== src/Records/Reopen/Gather.antt =====
-- `ReopenAssembler.assemble`: the handoff package, gathered from the collected records and from the
-- relations.
use portable_runtime.Base.{
  ℕ, String, Bool, false, not, ◌&&◌, ◌||◌, Option, none, some, is_some, List, [], ◌∷◌, ◌++◌,
}
use portable_runtime.Base.{elem, keep, non_empty, ◌==◌, if◌then◌else◌}
use portable_runtime.Base.Text.{is_blank}
use portable_runtime.Base.Result.{Result, ok, err}
use portable_runtime.Records.Reopen.Search.{
  Relation, StoredRecord, Store, Records, assign, has_key, or_else, target_or_work, collect_records,
}
use portable_runtime.Records.Reopen.Package.{
  Disposition, carry_forward, reconsider, invalidated, Dispositions, HandoffEnvelope,
  ReopenAssessment, Work, ReopenPackage, ReopenError, assembly_error, work_bypass, out_of_fuel,
  Gathered, nothing_gathered,
}

-- `if test: refs.append(ref)`
abbrev pub append_if : Bool → String → List String → List String
append_if test ref refs = if test then refs ++ (ref ∷ []) else refs

-- `dict.update`
unfoldable pub update : List (String × String) → List (String × String) → List (String × String)
update [] old = old
update ((k, v) ∷ new) old = update new (assign k v old)

abbrev pub present_items : List String → List String
present_items items = keep (λ item. not (is_blank item)) items

abbrev pub lifecycle_disposition : String → Disposition
lifecycle_disposition lifecycle =
    if elem lifecycle ("rejected" ∷ "deprecated" ∷ "archived" ∷ "superseded" ∷ [])
    then invalidated
    else carry_forward

-- One round of the loop over the records.
unfoldable pub gather_record : String → StoredRecord → Gathered → Gathered
unfolding is_blank
gather_record ref r g =
    let has_type : String → Bool = λ name. r.record_type == name in
    record {
      evidence_refs = append_if (has_type "EvidenceArtifact") ref g.evidence_refs;
      observation_refs = append_if (has_type "Observation") ref g.observation_refs;
      assertion_refs = append_if (has_type "Assertion") ref g.assertion_refs;
      goal_refs = append_if (has_type "Goal") ref g.goal_refs;
      constraint_refs = append_if (has_type "Constraint") ref g.constraint_refs;
      authorization_refs = append_if (has_type "AuthorizationGrant") ref g.authorization_refs;
      candidate_refs = append_if (r.lifecycle_status == "candidate") ref g.candidate_refs;
      rejected_refs =
          append_if (elem r.lifecycle_status ("rejected" ∷ "deprecated" ∷ "archived" ∷ [])) ref
            g.rejected_refs;
      counterevidence_refs = g.counterevidence_refs;
      assumptions = g.assumptions ++ present_items r.assumptions;
      unknown_scopes = g.unknown_scopes ++ present_items r.unknown_scopes;
      reopen_condition_refs = g.reopen_condition_refs ++ present_items r.invalidation_conditions;
      invalidation_refs = g.invalidation_refs;
      closure_refs =
          append_if
            (elem r.lifecycle_status ("verified" ∷ "accepted" ∷ "confirmed" ∷ "official" ∷ [])) ref
            g.closure_refs;
      environment_versions = update r.environment_versions g.environment_versions;
      scope = if non_empty g.scope then g.scope else r.scope;
      dispositions = assign ref (lifecycle_disposition r.lifecycle_status) g.dispositions;
    }

unfoldable pub gather_records : Records → Gathered → Gathered
gather_records [] g = g
gather_records ((ref, r) ∷ rest) g = gather_records rest (gather_record ref r g)

-- The ends of a relation that were collected.
abbrev pub collected_ends : Records → Relation → List String
collected_ends records rel =
    keep (λ ref. has_key ref records) (rel.subject_ref ∷ rel.object_ref ∷ [])

-- `dispositions[ref] = disposition` for each of the refs.
unfoldable pub mark : Disposition → List String → Dispositions → Dispositions
mark d [] ds = ds
mark d (ref ∷ refs) ds = mark d refs (assign ref d ds)

-- `self._record_type(records[ref]) == "Assertion"`
unfoldable pub is_assertion : String → Records → Bool
is_assertion ref [] = false
is_assertion ref ((k, r) ∷ rest) =
    let others = is_assertion ref rest in if ref == k then r.record_type == "Assertion" else others

-- One round of the loop over the relations.
unfoldable pub gather_relation : Records → Relation → Gathered → Gathered
gather_relation records rel g =
    if not (has_key rel.subject_ref records) && not (has_key rel.object_ref records)
    then g
    else if rel.relation_type == "authorizes"
    then record g { authorization_refs = g.authorization_refs ++ collected_ends records rel }
    else if rel.relation_type == "contradicts"
    then record g {
      counterevidence_refs = g.counterevidence_refs ++ collected_ends records rel;
      dispositions = mark invalidated (collected_ends records rel) g.dispositions;
    }
    else if rel.relation_type == "requires-revalidation"
    then record g {
      invalidation_refs = g.invalidation_refs ++ (rel.id ∷ []);
      dispositions =
          mark reconsider (keep (λ ref. has_key ref records) (rel.subject_ref ∷ [])) g.dispositions;
    }
    else if rel.relation_type == "supports"
    then record g {
      assertion_refs =
          g.assertion_refs
          ++ keep (λ ref. is_assertion ref records) (rel.subject_ref ∷ rel.object_ref ∷ []);
    }
    else g

unfoldable pub gather_relations : Records → List Relation → Gathered → Gathered
gather_relations records [] g = g
gather_relations records (rel ∷ rels) g =
    gather_relations records rels (gather_relation records rel g)

-- `list(dict.fromkeys(values))`: the first of equal values stays.
unfoldable pub unique_after : List String → List String → List String
unique_after earlier [] = []
unique_after earlier (x ∷ xs) =
    let rest = unique_after (x ∷ earlier) xs in if elem x earlier then rest else x ∷ rest

abbrev pub unique : List String → List String
unique xs = unique_after [] xs

abbrev pub new_envelope : ReopenAssessment → Work → Gathered → HandoffEnvelope
new_envelope assessment work g = record {
  subject_refs = unique (work.id ∷ target_or_work assessment.record_ref work.id ∷ []);
  goal_refs = unique g.goal_refs;
  constraint_refs = unique g.constraint_refs;
  assumption_refs = unique g.assumptions;
  evidence_refs = unique g.evidence_refs;
  observation_refs = unique g.observation_refs;
  current_assertion_refs = unique g.assertion_refs;
  unknown_refs = unique g.unknown_scopes;
  counterevidence_refs = unique g.counterevidence_refs;
  still_qualified_candidate_refs = unique g.candidate_refs;
  authorization_refs = unique g.authorization_refs;
  closure_refs = unique g.closure_refs;
  invalidation_refs = unique g.invalidation_refs;
  reopen_condition_refs = unique g.reopen_condition_refs;
  dispositions = g.dispositions;
}

abbrev pub envelope_or : Option HandoffEnvelope → HandoffEnvelope → HandoffEnvelope
envelope_or none new = new
envelope_or (some given) new = given

abbrev pub new_package : ReopenAssessment → Work → Option HandoffEnvelope → Gathered → ReopenPackage
new_package assessment work handoff g = record {
  original_work_ref = work.id;
  target_record_ref = target_or_work assessment.record_ref work.id;
  current_conclusion_refs = unique g.assertion_refs;
  scope = g.scope;
  assumptions = unique g.assumptions;
  evidence_refs = unique g.evidence_refs;
  counterevidence_refs = unique g.counterevidence_refs;
  unknown_scopes = unique g.unknown_scopes;
  still_qualified_candidate_refs = unique g.candidate_refs;
  rejected_candidate_refs = unique g.rejected_refs;
  acceptance_criteria = work.acceptance_criteria;
  constraints = work.constraints;
  inputs = work.inputs;
  artifact_refs = work.artifact_refs;
  reopen_reason = assessment.reason;
  revision_scope = assessment.revision_scope;
  environment_versions = g.environment_versions;
  authorization_refs = unique g.authorization_refs;
  failure_history_refs = unique g.invalidation_refs;
  handoff = envelope_or (or_else handoff assessment.handoff) (new_envelope assessment work g);
}

-- All that the two loops gather.
abbrev pub gather_all : Store → Records → Gathered
gather_all store records =
    gather_relations records store.relations (gather_records records nothing_gathered)

-- `assemble`, with the fuel of the search.
unfoldable pub assemble :
    ℕ
    → Option Store
    → ReopenAssessment
    → Work
    → Option HandoffEnvelope
    → Result ReopenError ReopenPackage
assemble fuel none assessment work handoff =
    if is_some handoff || is_some assessment.handoff
    then ok (new_package assessment work handoff nothing_gathered)
    else err assembly_error
assemble fuel (some store) assessment work handoff =
    elim (collect_records fuel store assessment.record_ref work.id) [
      | none ↦ err out_of_fuel
      | some records ↦ ok (new_package assessment work handoff (gather_all store records))
    ]

-- `create_reopen_work`
abbrev pub create_reopen_work : ReopenAssessment → Work → Option Store → Result ReopenError Work
create_reopen_work assessment work store = err work_bypass

unfoldable pub should_reopen : ReopenAssessment → Bool
should_reopen assessment =
    not (assessment.record_ref == "") && not (assessment.revision_scope == "other")
