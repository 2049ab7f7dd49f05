-- ===== src/Journal/Errors.antt =====
-- What the modelled operations raise, one name for each `raise` of the source.
pub data Error : Type 0 where
  -- stores/memory.py
  event_append_only : Error
  -- controller/models.py, on a state that is read back
  invalid_controller_state invalid_closure : Error
  -- controller/service.py
  controller_exists unknown_controller stale_decision closure_admits_only
        handed_off_requires_revision :
      Error
  open_does_not_admit status_does_not_admit : Error
  no_capability no_closure closure_responsibility closure_subject closure_candidates
        closure_issues :
      Error
  closure_policy : Error
  propose_responsibility propose_subject propose_incomplete propose_closure closure_unavailable :
      Error
  invalid_effect_class propose_effect propose_capabilities : Error
  no_revision revision_closure_required revision_proposal_required revision_closure revision_work :
      Error
  revision_descent revision_policy : Error
  blank_policy policy_controller policy_stale : Error
  -- responsibility/service.py
  unknown_object wrong_object_type object_append_only : Error
  history_not_contiguous not_admitted lifecycle_not_contiguous : Error
  admission_binding admission_version admission_principal responsibility_exists : Error
  revision_stale revision_discharged transition_stale transition_from_status : Error
  proposal_inactive proposal_historical assessment_foreign assessment_stale assessment_not_fresh :
      Error
  proposal_not_fresh expectation_inactive expectation_stale : Error
  judgment_policy pool_policy portfolio_policy portfolio_too_large : Error
  reservation_responsibility reservation_resources reservation_overcommits : Error
  release_responsibility already_released : Error
  commitment_inactive commitment_stale commitment_responsibility commitment_proposal_version : Error
  commitment_proposal_stale commitment_assessment_stale commitment_priority commitment_portfolio :
      Error
  commitment_proposal commitment_reservation commitment_resources : Error
  -- the runtime behind `invoke`
  runtime_failed : Error
