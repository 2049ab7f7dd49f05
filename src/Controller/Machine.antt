-- ===== src/Controller/Machine.antt =====
-- The abstract state machine of a controller: which state may follow a state, on which decision.
use portable_runtime.Base.{◌+◌, String, ◌≡◌, ◌≢◌, none, some}
use portable_runtime.Controller.Models.{
  ControllerState, open_, waiting, closed, ControllerDecision, ControllerDecisionKind,
  invoke_capability, form_closure, propose_work, assess_revision, close, reopen, wait,
  RevisionAssessment, CognitiveClosure,
}
use portable_runtime.Controller.Operations.{status_after}

-- The state after `_form_closure`.
abbrev pub Closes : ControllerState → ControllerDecision → ControllerState → Type 0
Closes st d st' =
    (st'.version ≡ st.version + 1)
    × (st'.status ≡ open_)
    × (st'.work_proposal_ref ≡ st.work_proposal_ref)
    × ((c : CognitiveClosure) × (d.closure ≡ some c) × (st'.active_closure_ref ≡ some c.id))

-- The state after `_assess_revision`.
abbrev pub Assesses : ControllerState → ControllerDecision → ControllerState → Type 0
Assesses st d st' =
    (st'.version ≡ st.version + 1)
    × (st'.active_closure_ref ≡ st.active_closure_ref)
    × (st'.work_proposal_ref ≡ st.work_proposal_ref)
    × ((r : RevisionAssessment) × (d.revision ≡ some r)
        × (st.active_closure_ref ≡ some r.closure_ref)
        × (st'.last_revision_ref ≡ some r.id)
        × (st'.status ≡ status_after r.recommended_disposition))

-- The state after `_propose_work`.
abbrev pub HandsOff : ControllerState → ControllerDecision → ControllerState → Type 0
HandsOff st d st' =
    (st'.version ≡ st.version + 1)
    × (st'.status ≡ waiting)
    × (st'.active_closure_ref ≡ st.active_closure_ref)
    × ((ref : String) × (st'.work_proposal_ref ≡ some ref) × (st'.pending_ref ≡ some ref))

-- The state that waits for the answer of the runtime.
abbrev pub Awaits : ControllerState → ControllerDecision → ControllerState → Type 0
Awaits st d t =
    (t.version ≡ st.version + 1)
    × (t.status ≡ waiting)
    × (t.last_decision_ref ≡ some d.id)
    × ((ref : String) × (t.pending_ref ≡ some ref) × (ref ≢ ""))

-- The state after `_invoke_capability`.
abbrev pub Resumes : ControllerState → ControllerDecision → ControllerState → Type 0
Resumes st d st' =
    (st'.version ≡ st.version + 2)
    × (st'.status ≡ open_)
    × (st'.last_decision_ref ≡ some d.id)
    × (st'.active_closure_ref ≡ st.active_closure_ref)
    × (st'.work_proposal_ref ≡ st.work_proposal_ref)

abbrev pub Reopens : ControllerState → ControllerState → Type 0
Reopens st st' =
    (st'.version ≡ st.version + 1)
    × (st'.status ≡ open_)
    × (st'.active_closure_ref ≡ none)
    × (st'.work_proposal_ref ≡ none)

abbrev pub Ends : ControllerState → ControllerState → Type 0
Ends st st' = (st'.version ≡ st.version + 1) × (st'.status ≡ closed)

abbrev pub Waits : ControllerState → ControllerDecision → ControllerState → Type 0
Waits st d st' =
    (st'.version ≡ st.version + 1)
    × (st'.status ≡ waiting)
    × (st'.pending_ref ≡ some d.id)
    × (st'.active_closure_ref ≡ st.active_closure_ref)
    × (st'.work_proposal_ref ≡ st.work_proposal_ref)

-- The abstract machine: which state may follow a state on a decision.
abbrev pub Follows :
    ControllerDecisionKind → ControllerState → ControllerDecision → ControllerState → Type 0
Follows invoke_capability st d st' = Resumes st d st'
Follows form_closure st d st' = Closes st d st'
Follows propose_work st d st' = HandsOff st d st'
Follows assess_revision st d st' = Assesses st d st'
Follows close st d st' = Ends st st'
Follows reopen st d st' = Reopens st st'
Follows wait st d st' = Waits st d st'
