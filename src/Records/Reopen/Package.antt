-- ===== src/Records/Reopen/Package.antt =====
-- The records of the handoff package. The values of a scope and of the constraints are texts.
use portable_runtime.Base.{String, Option, none, some, List, []}
use portable_runtime.Base.{◌==◌, if◌then◌else◌}

pub data Disposition : Type 0 where
  carry_forward reconsider invalidated unresolved context_only : Disposition

abbrev pub Dispositions : Type 0
Dispositions = List (String × Disposition)

pub record HandoffEnvelope : Type 0 where
  pub subject_refs : List String
  pub goal_refs : List String
  pub constraint_refs : List String
  pub assumption_refs : List String
  pub evidence_refs : List String
  pub observation_refs : List String
  pub current_assertion_refs : List String
  pub unknown_refs : List String
  pub counterevidence_refs : List String
  pub still_qualified_candidate_refs : List String
  pub authorization_refs : List String
  pub closure_refs : List String
  pub invalidation_refs : List String
  pub reopen_condition_refs : List String
  pub dispositions : Dispositions

pub record ReopenAssessment : Type 0 where
  pub record_ref : String
  pub revision_scope : String
  pub reason : String
  pub handoff : Option HandoffEnvelope

-- `ReopenAssessment._sync_target`, on the two refs that the constructor is given.
unfoldable pub sync_target : String → Option String → String × Option String
sync_target record_ref none = if record_ref == "" then ("", none) else (record_ref, some record_ref)
sync_target record_ref (some target) =
    if record_ref == ""
    then (target, some target)
    else if target == ""
    then (record_ref, some record_ref)
    else (record_ref, some target)

-- The fields of a `Work` that the assembler reads.
pub record Work : Type 0 where
  pub id : String
  pub acceptance_criteria : List String
  pub constraints : List (String × String)
  pub inputs : List String
  pub artifact_refs : List String

pub record ReopenPackage : Type 0 where
  pub original_work_ref : String
  pub target_record_ref : String
  pub current_conclusion_refs : List String
  pub scope : List (String × String)
  pub assumptions : List String
  pub evidence_refs : List String
  pub counterevidence_refs : List String
  pub unknown_scopes : List String
  pub still_qualified_candidate_refs : List String
  pub rejected_candidate_refs : List String
  pub acceptance_criteria : List String
  pub constraints : List (String × String)
  pub inputs : List String
  pub artifact_refs : List String
  pub reopen_reason : String
  pub revision_scope : String
  pub environment_versions : List (String × String)
  pub authorization_refs : List String
  pub failure_history_refs : List String
  pub handoff : HandoffEnvelope

pub data ReopenError : Type 0 where
  assembly_error work_bypass out_of_fuel : ReopenError

-- The local variables of `assemble`.
pub record Gathered : Type 0 where
  pub evidence_refs : List String
  pub observation_refs : List String
  pub assertion_refs : List String
  pub goal_refs : List String
  pub constraint_refs : List String
  pub authorization_refs : List String
  pub candidate_refs : List String
  pub rejected_refs : List String
  pub counterevidence_refs : List String
  pub assumptions : List String
  pub unknown_scopes : List String
  pub reopen_condition_refs : List String
  pub invalidation_refs : List String
  pub closure_refs : List String
  pub environment_versions : List (String × String)
  pub scope : List (String × String)
  pub dispositions : Dispositions

abbrev pub nothing_gathered : Gathered
nothing_gathered = record {
  evidence_refs = [];
  observation_refs = [];
  assertion_refs = [];
  goal_refs = [];
  constraint_refs = [];
  authorization_refs = [];
  candidate_refs = [];
  rejected_refs = [];
  counterevidence_refs = [];
  assumptions = [];
  unknown_scopes = [];
  reopen_condition_refs = [];
  invalidation_refs = [];
  closure_refs = [];
  environment_versions = [];
  scope = [];
  dispositions = [];
}
