-- ===== src/Records/Tests.antt =====
-- The theorems on records at a concrete store.
use portable_runtime.Base.{
  String, ◌≡◌, refl, ◌≢◌, ◌↔◌, ◌⊎◌, inl, inr, true, false, none, some, is_some, [], ◌∷◌, elem,
  arith, if◌then◌else◌, ◌==◌, ◌≤◌,
}
use portable_runtime.Base.Result.{ok, err, is_ok}
use portable_runtime.Records.Lifecycle.{
  lifecycle_machine, machine_allows, is_valid_lifecycle_transition, validate_lifecycle_transition,
  validate_orthogonal, BaseRecord, revision_machine, invalid_lifecycle,
}
use portable_runtime.Records.Progress.{Moves, stay, move, Moves-IsBounded, moved-IsRefused}
use portable_runtime.Records.Reopen.Search.{
  Relation, StoredRecord, Store, Records, has_key, collect_records, search_loop, visit_all, visit,
  assign,
}
use portable_runtime.Records.Reopen.Package.{
  ReopenAssessment, ReopenPackage, Work, invalidated, reconsider, assembly_error,
}
use portable_runtime.Records.Reopen.Gather.{assemble, should_reopen}
use portable_runtime.Records.Reopen.Graph.{Reached, begin, follow, IsStored}
use portable_runtime.Records.Reopen.Collected.{starts, Collects, collect_records-Collects}
use portable_runtime.Records.Reopen.Handoff.{value_of}
use portable_runtime.Records.Reopen.Accounts.{assemble-Accounts, assemble-Countered}

skipping_refused :
    validate_lifecycle_transition "Revision" "proposed" "applied" ≡ err invalid_lifecycle
unfolding lifecycle_machine machine_allows is_valid_lifecycle_transition
    validate_lifecycle_transition
skipping_refused = refl

accepted_to_applied : Moves "Revision" 2 "proposed" "applied"
unfolding lifecycle_machine machine_allows is_valid_lifecycle_transition
accepted_to_applied = move {t = "authorized"} refl (λ p. cc p) (move refl (λ p. cc p) stay)

Moves-IsBounded_example : (2 ≤ 4) × (◌≢◌ {A = String} "proposed" "applied")
unfolding lifecycle_machine
Moves-IsBounded_example =
    Moves-IsBounded "Revision" revision_machine 1 "proposed" "applied" refl accepted_to_applied

abbrev proposed : BaseRecord
proposed = record {
  record_type = "Revision";
  lifecycle_status = "proposed";
  epistemic_status = none;
}

moved-IsRefused_example :
    (is_ok (validate_orthogonal (record proposed { lifecycle_status = "archived" })) ≡ false) ↔ (
      (proposed.record_type ≡ "Revision")
      × (proposed.lifecycle_status ≡ "proposed")
      × (◌≡◌ {A = String} "archived" "archived"))
unfolding lifecycle_machine machine_allows is_valid_lifecycle_transition validate_orthogonal
moved-IsRefused_example = moved-IsRefused proposed revision_machine "archived" refl refl refl

abbrev claim : StoredRecord
claim = record {
  record_type = "Assertion";
  lifecycle_status = "current";
  scope = [];
  environment_versions = [];
  assumptions = [];
  unknown_scopes = [];
  invalidation_conditions = [];
}

abbrev evidence : StoredRecord
evidence = record claim { record_type = "EvidenceArtifact" }

abbrev contradiction : Relation
contradiction = record {
  id = "rel_1";
  relation_type = "contradicts";
  subject_ref = "claim";
  object_ref = "evidence";
}

abbrev store : Store
store = record {
  relations =
      contradiction
      ∷ record {
        id = "rel_2";
        relation_type = "supports";
        subject_ref = "work";
        object_ref = "claim";
      }
      ∷ [];
  get_record =
      λ r. if r == "claim" then some claim else if r == "evidence" then some evidence else none;
  get_authorization = λ r. none;
}

abbrev assessment : ReopenAssessment
assessment = record {
  record_ref = "";
  revision_scope = "evidence-acquisition";
  reason = "contradicted";
  handoff = none;
}

abbrev work : Work
work = record {
  id = "work";
  acceptance_criteria = [];
  constraints = [];
  inputs = [];
  artifact_refs = [];
}

both_collected :
    collect_records 6 store "" "work" ≡ some (("claim", claim) ∷ ("evidence", evidence) ∷ [])
unfolding collect_records search_loop visit_all visit assign
both_collected = refl

no_store_refused : assemble 6 none assessment work none ≡ err assembly_error
unfolding assemble
no_store_refused = refl

reopening : should_reopen (record assessment { record_ref = "claim" }) ≡ true
unfolding should_reopen
reopening = refl

collect_records-Collects_example :
    (records : Records) × (collect_records 6 store "" "work" ≡ some records)
    × Collects store "" "work" records
    × IsStored store records
collect_records-Collects_example = collect_records-Collects 6 store "" "work" (omega arith)

claim_first : Reached store (starts "" "work") "claim"
claim_first = follow _ (begin {r = "work"} refl) (inr (inl refl)) (inl (refl, refl)) refl

evidence_next : Reached store (starts "" "work") "evidence"
evidence_next = follow _ claim_first (inl refl) (inl (refl, refl)) refl

assemble-Accounts_example :
    (p : ReopenPackage) × (assemble 6 (some store) assessment work none ≡ ok p)
    × ((has_key "claim" p.handoff.dispositions ≡ true) ↔ (
        Reached store (starts "" "work") "claim" × (elem "claim" (starts "" "work") ≡ false)
        ⊎ (◌≡◌ {A = String} "claim" "") × (is_some (store.get_record "") ≡ true)))
assemble-Accounts_example = assemble-Accounts 6 store assessment work "claim" (omega arith) refl

assemble-Countered_example :
    (p : ReopenPackage) × (assemble 6 (some store) assessment work none ≡ ok p)
    × (elem "evidence" p.counterevidence_refs ≡ true)
    × ((value_of "evidence" p.handoff.dispositions ≡ some invalidated)
        ⊎ (value_of "evidence" p.handoff.dispositions ≡ some reconsider))
assemble-Countered_example =
    assemble-Countered 6 store assessment work contradiction "evidence" (omega arith) refl
      (inl refl) refl (inr refl) evidence_next refl
