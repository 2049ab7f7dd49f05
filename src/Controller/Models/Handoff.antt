-- ===== src/Controller/Models/Handoff.antt =====
-- controller/handoff.py: the references that a closure or a revision carries along.
use portable_runtime.Base.{String, List}

pub data HandoffDisposition : Type 0 where
  carry_forward reconsider invalidated unresolved context_only : HandoffDisposition

pub record CognitiveHandoffEnvelope : Type 0 where
  pub subject_refs : List String
  pub goal_refs : List String
  pub constraint_refs : List String
  pub assumption_refs : List String
  pub evidence_refs : List String
  pub observation_refs : List String
  pub assertion_refs : List String
  pub unknown_refs : List String
  pub counterevidence_refs : List String
  pub selected_candidate_refs : List String
  pub deferred_candidate_refs : List String
  pub rejected_candidate_refs : List String
  pub authorization_refs : List String
  pub closure_refs : List String
  pub invalidation_refs : List String
  pub reopen_condition_refs : List String
  pub dispositions : List (String × HandoffDisposition)
