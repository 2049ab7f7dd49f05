-- ===== src/Controller/Guards.antt =====
-- controller/service.py: `_require_current`.
use portable_runtime.Base.{
  Bool, true, false, not, ◌&&◌, Option, none, some, eqb, is_some, if◌then◌else◌,
}
use portable_runtime.Base.Result.{Result, ok, err}
use portable_runtime.Controller.Models.{
  ControllerState, ControllerStatus, open_, waiting, closed, reopen_required, ControllerDecision,
  ControllerDecisionKind, invoke_capability, form_closure, propose_work, assess_revision, close,
  reopen, wait,
}
use portable_runtime.Controller.Recording.{get}
use portable_runtime.Journal.{Store}
use portable_runtime.Journal.Errors.{
  Error, unknown_controller, stale_decision, closure_admits_only, handed_off_requires_revision,
  open_does_not_admit, status_does_not_admit,
}

-- The kinds that an open controller admits, with and without an active closure.
abbrev pub exploring : ControllerDecisionKind → Bool
exploring invoke_capability = true
exploring form_closure = true
exploring close = true
exploring wait = true
exploring _ = false

abbrev pub committed : ControllerDecisionKind → Bool
committed propose_work = true
committed close = true
committed wait = true
committed _ = false

abbrev pub is_assess_revision : ControllerDecisionKind → Bool
is_assess_revision assess_revision = true
is_assess_revision _ = false

abbrev pub is_reopen : ControllerDecisionKind → Bool
is_reopen reopen = true
is_reopen _ = false

-- The set `allowed` as a test.
unfoldable pub admits : ControllerStatus → ControllerState → ControllerDecisionKind → Bool
admits open_ st kind = if is_some st.active_closure_ref then committed kind else exploring kind
admits waiting st kind =
    if is_some st.active_closure_ref && is_some st.work_proposal_ref
    then is_assess_revision kind
    else is_reopen kind
admits closed st kind = is_reopen kind
admits reopen_required st kind = is_reopen kind

-- The error of a kind that is not allowed.
abbrev pub refusal : ControllerStatus → ControllerState → Error
refusal open_ st =
    if is_some st.active_closure_ref then closure_admits_only else open_does_not_admit
refusal waiting st =
    if is_some st.work_proposal_ref then handed_off_requires_revision else status_does_not_admit
refusal closed st = status_does_not_admit
refusal reopen_required st = status_does_not_admit

abbrev pub require_state :
    ControllerDecision → Result Error (Option ControllerState) → Result Error ControllerState
require_state d (err e) = err e
require_state d (ok none) = err unknown_controller
require_state d (ok (some st)) =
    if not (eqb d.state_version st.version)
    then err stale_decision
    else if not (admits st.status st d.kind)
    then err (refusal st.status st)
    else ok st

-- `_require_current`
unfoldable pub require_current : ControllerDecision → Store → Result Error ControllerState
unfolding get admits
require_current d s = require_state d (get d.controller_ref s)
