-- ===== src/Records/Lifecycle.antt =====
-- records/lifecycle.py, and the validator of `BaseRecord` in records/models.py that reads the same
-- statuses.
use portable_runtime.Base.{String, Bool, true, not, ◌&&◌, ◌||◌, Option, none, some, is_some}
use portable_runtime.Base.{List, [], ◌∷◌, elem, non_empty, ◌==◌, if◌then◌else◌}
use portable_runtime.Base.Result.{Result, raise_if, ◌>>◌}

-- A dict of texts with sets of texts: its entries in the order of the source.
abbrev pub Table : Type 0
Table = List (String × List String)

-- `table.get(key, set())`
abbrev pub entry : String → Table → List String
entry key [] = []
entry key ((k, values) ∷ rest) = let found = entry key rest in if key == k then values else found

abbrev pub assertion_machine : Table
assertion_machine =
    ("draft", "current" ∷ "archived" ∷ [])
    ∷ ("current", "superseded" ∷ "archived" ∷ [])
    ∷ ("superseded", "archived" ∷ [])
    ∷ ("archived", [])
    ∷ []

abbrev pub revision_machine : Table
revision_machine =
    ("proposed", "authorized" ∷ "rejected" ∷ "archived" ∷ [])
    ∷ ("authorized", "applied" ∷ "rejected" ∷ [])
    ∷ ("applied", "verified" ∷ "rolled-back" ∷ [])
    ∷ ("verified", "accepted" ∷ "rejected" ∷ "rolled-back" ∷ [])
    ∷ ("accepted", [])
    ∷ ("rejected", [])
    ∷ ("rolled-back", [])
    ∷ ("archived", [])
    ∷ []

abbrev pub policy_machine : Table
policy_machine =
    ("draft", "candidate" ∷ "archived" ∷ [])
    ∷ ("candidate", "official" ∷ "archived" ∷ [])
    ∷ ("official", "deprecated" ∷ "archived" ∷ [])
    ∷ ("deprecated", "archived" ∷ [])
    ∷ ("archived", [])
    ∷ []

abbrev pub action_machine : Table
action_machine =
    ("recorded", "verified" ∷ "current" ∷ [])
    ∷ ("verified", "current" ∷ "superseded" ∷ [])
    ∷ ("current", "superseded" ∷ [])
    ∷ ("superseded", [])
    ∷ []

abbrev pub outcome_machine : Table
outcome_machine =
    ("recorded", "confirmed" ∷ "superseded" ∷ [])
    ∷ ("confirmed", "superseded" ∷ [])
    ∷ ("superseded", [])
    ∷ ("archived", [])
    ∷ []

-- `_LIFECYCLE_MACHINES.get(record_type)`
unfoldable pub lifecycle_machine : String → Option Table
lifecycle_machine record_type =
    if record_type == "Assertion"
    then some assertion_machine
    else if record_type == "Revision"
    then some revision_machine
    else if record_type == "Policy"
    then some policy_machine
    else if record_type == "Action"
    then some action_machine
    else if record_type == "Outcome"
    then some outcome_machine
    else none

-- A machine's answer; a type without a machine is permissive.
unfoldable pub machine_allows : Option Table → String → String → Bool
machine_allows none from_status to_status = true
machine_allows (some machine) from_status to_status =
    elem to_status (entry from_status machine) || from_status == to_status

unfoldable pub is_valid_lifecycle_transition : String → String → String → Bool
is_valid_lifecycle_transition record_type from_status to_status =
    machine_allows (lifecycle_machine record_type) from_status to_status

pub data RecordError : Type 0 where
  invalid_lifecycle must_not_carry_epistemic_status lifecycle_status_not_allowed : RecordError

unfoldable pub validate_lifecycle_transition : String → String → String → Result RecordError Unit
validate_lifecycle_transition record_type from_status to_status =
    raise_if (not (is_valid_lifecycle_transition record_type from_status to_status))
      invalid_lifecycle

-- `_ALLOWED_LIFECYCLE`
abbrev pub draft_statuses : List String
draft_statuses = "draft" ∷ "current" ∷ "superseded" ∷ "archived" ∷ []

abbrev pub official_statuses : List String
official_statuses = "draft" ∷ "candidate" ∷ "official" ∷ "deprecated" ∷ "archived" ∷ []

abbrev pub allowed_lifecycle : Table
allowed_lifecycle =
    ("EvidenceArtifact", draft_statuses)
    ∷ ("Observation", draft_statuses)
    ∷ ("Assertion", draft_statuses)
    ∷ ("Goal", "proposed" ∷ "current" ∷ "superseded" ∷ "archived" ∷ [])
    ∷ ("Constraint", draft_statuses)
    ∷ ("Experiment", draft_statuses)
    ∷ ("Decision", draft_statuses)
    ∷ ("Action", "recorded" ∷ "verified" ∷ "current" ∷ "superseded" ∷ [])
    ∷ ("Outcome", "recorded" ∷ "confirmed" ∷ "superseded" ∷ "archived" ∷ [])
    ∷ (
      "Revision",
      "proposed" ∷ "authorized" ∷ "applied" ∷ "verified" ∷ "accepted" ∷ "rejected" ∷ "rolled-back"
          ∷ [],
    )
    ∷ ("ChangeObject", official_statuses)
    ∷ ("Policy", official_statuses)
    ∷ ("Derivation", draft_statuses)
    ∷ []

-- The fields of a record that its validator reads.
pub record BaseRecord : Type 0 where
  pub record_type : String
  pub lifecycle_status : String
  pub epistemic_status : Option String

-- `EPISTEMIC_STATUS_RECORD_TYPES`
abbrev pub epistemic_status_record_types : List String
epistemic_status_record_types = "Assertion" ∷ "Observation" ∷ []

-- `_validate_orthogonal`. `allowed` is falsy where the type has no entry.
unfoldable pub validate_orthogonal : BaseRecord → Result RecordError Unit
validate_orthogonal self =
    let allowed = entry self.record_type allowed_lifecycle in
    raise_if
      (is_some self.epistemic_status && not (elem self.record_type epistemic_status_record_types))
      must_not_carry_epistemic_status
    >> raise_if (non_empty allowed && not (elem self.lifecycle_status allowed))
        lifecycle_status_not_allowed
