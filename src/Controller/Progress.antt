-- ===== src/Controller/Progress.antt =====
-- `apply` as one step of an abstract state machine.
use portable_runtime.Base.{
  String, ◌≡◌, ◌≢◌, refl, sym, ◌∙◌, ap, ◌⊎◌, inl, true, arith, eqb_iff, eq_iff, none, some,
}
use mathlib.Core.Path.{subst}
use portable_runtime.Base.Result.{ok}
use portable_runtime.Controller.Models.{
  ControllerState, open_, waiting, closed, ControllerDecision, ControllerDecisionKind,
  invoke_capability, form_closure, propose_work, assess_revision, close, reopen, wait,
  RevisionAssessment,
}
use portable_runtime.Controller.Recording.{get, record_decision}
use portable_runtime.Controller.Guards.{admits, require_state, require_current}
use portable_runtime.Controller.Operations.{Changes, unchanged, transition, form, assess}
use portable_runtime.Controller.Apply.{CapabilityRequest, hand_off, perform, apply}
use portable_runtime.Controller.Machine.{Closes, Assesses, HandsOff, Ends, Reopens, Waits, Follows}
use portable_runtime.Controller.Stable.{record_event-Keeps}
use portable_runtime.Controller.Current.{IsCurrent, IsCurrent-stable, get_lem}
use portable_runtime.Controller.Moves.{MovedTo, transition-Triple, form-Triple, assess-Triple}
use portable_runtime.Controller.Handing.{
  NamesAll, LeavesControllers, hand_off-Triple, Stuck, invoke-Triple,
}
use portable_runtime.Journal.{Store, Env, CapabilityResult, M, ◌>>=◌}
use portable_runtime.Journal.Logic.{Post, Triple, after, after_reads, weaken}

-- The references that a decision brings along are not blank.
pub record HasNames (d : ControllerDecision) : Type 0 where
  pub decision : d.id ≢ ""
  pub revision : (r : RevisionAssessment) → d.revision ≡ some r → r.id ≢ ""

-- The runtime has raised, so that the controller that asked it still waits.
abbrev pub IsStuck :
    ControllerDecisionKind → String → ControllerState → ControllerDecision → Store → Type 0
IsStuck invoke_capability id st d s = Stuck id st d s
IsStuck _ id st d s = ⊥

pub require_state_lem :
    (d : ControllerDecision) (st a : ControllerState)
    → require_state d (ok (some st)) ≡ ok a
    → (a ≡ st) × (d.state_version ≡ st.version) × (admits st.status st d.kind ≡ true)
require_state_lem d st a h = ground (arith, eqb_iff d.state_version st.version)

abbrev cleared : Changes
cleared = record unchanged { active_closure_ref = some none; work_proposal_ref = some none }

module _ (env : Env) (id : String) (st : ControllerState) (d : ControllerDecision) where
  settled :
      (R : ControllerState → Type 0) (m : M ControllerState) (kind : ControllerDecisionKind)
      → Triple (IsCurrent id st) m (MovedTo id R) (IsCurrent id st)
      → Triple (IsCurrent id st) m (MovedTo id R) (λ s. IsCurrent id st s ⊎ IsStuck kind id st d s)
  settled R m kind t =
      weaken {Q = MovedTo id R} {R = MovedTo id R} {E = IsCurrent id st}
        {F = λ s. IsCurrent id st s ⊎ IsStuck kind id st d s} m (λ _ s h. h) (λ s h. inl h) t

  module _ (invoke : CapabilityRequest → M CapabilityResult) (names : NamesAll env)
      (leaves : LeavesControllers invoke) (named : HasNames d) where
    Target : ControllerDecisionKind → Type 0
    Target kind =
        Triple (IsCurrent id st) (perform env invoke kind st d) (MovedTo id (Follows kind st d))
          (λ s. IsCurrent id st s ⊎ IsStuck kind id st d s)

    perform-Triple : (kind : ControllerDecisionKind) → Target kind
    unfolding Target
    perform-Triple invoke_capability = invoke-Triple env id st names invoke leaves d
    perform-Triple form_closure =
        settled (Closes st d) (form env st d) form_closure (form-Triple env id st d)
    perform-Triple propose_work =
        settled (HandsOff st d) (hand_off env st d) propose_work (hand_off-Triple env id st names d)
    perform-Triple assess_revision =
        settled (Assesses st d) (assess env st d) assess_revision
          (assess-Triple env id st d named.revision)
    perform-Triple close =
        settled (Ends st) (transition env st d closed none unchanged) close
          (transition-Triple env id st (Ends st) d closed none unchanged refl (λ now. (refl, refl)))
    perform-Triple reopen = settled (Reopens st) (transition env st d open_ none cleared) reopen (
        transition-Triple env id st (Reopens st) d open_ none cleared refl
          (λ now. (refl, refl, refl, refl)))
    perform-Triple wait =
        settled (Waits st d) (transition env st d waiting (some d.id) unchanged) wait (
          transition-Triple env id st (Waits st d) d waiting (some d.id) unchanged
            (ground (arith, named.decision, eq_iff d.id ""))
            (λ now. (refl, refl, refl, refl, refl)))

    -- What `apply` returns: a state that follows the current one, on a decision that it admits.
    abbrev pub Applied : ControllerState → Store → Type 0
    Applied st' s =
        MovedTo id (Follows d.kind st d) st' s
        × (d.state_version ≡ st.version)
        × (admits st.status st d.kind ≡ true)

    current_required :
        (a : ControllerState) (s : Store)
        → d.controller_ref ≡ id
        → IsCurrent id st s
        → require_current d s ≡ ok a
        → (a ≡ st) × (d.state_version ≡ st.version) × (admits st.status st d.kind ≡ true)
    unfolding require_current
    current_required a s e h k =
        let found : get d.controller_ref s ≡ ok (some st) = rw e (get_lem id st s h) in
        require_state_lem d st a (sym (ap (require_state d) found) ∙ k)

    decided_then :
        (d.state_version ≡ st.version) × (admits st.status st d.kind ≡ true)
        → Triple
            (IsCurrent id st)
            (record_decision env d >>= λ _. perform env invoke d.kind st d)
            Applied
            (λ s. IsCurrent id st s ⊎ IsStuck d.kind id st d s)
    unfolding Target
    decided_then f =
        after _ _ _ _ _
          (unfold record_decision in
            record_event-Keeps (IsCurrent-stable id st) env d.controller_ref _ refl)
          (λ s h. inl h)
          λ _.
            weaken {Q = MovedTo id (Follows d.kind st d)} {R = Applied}
              {E = λ s. IsCurrent id st s ⊎ IsStuck d.kind id st d s}
              {F = λ s. IsCurrent id st s ⊎ IsStuck d.kind id st d s}
              (perform env invoke d.kind st d) (λ st' s h. (h, f.0, f.1)) (λ s h. h)
              (perform-Triple d.kind)

    -- Where a valid state is the controller's current one, `apply` returns a valid state that has become the
    -- current one and follows it in the abstract machine, the decision being for its version and of a
    -- kind that it admits; or it raises, and the current state is still the same, except that after a
    -- failure of the runtime behind an invocation the controller waits for that invocation. New
    -- identifiers and those of the decision are not blank, and the runtime records no controller state.
    pub apply_follows :
        (s : Store)
        → d.controller_ref ≡ id
        → IsCurrent id st s
        → Post Applied
            (λ s'. IsCurrent id st s' ⊎ IsStuck d.kind id st d s')
            (apply env invoke d s).0
            (apply env invoke d s).1
    unfolding apply
    apply_follows store e =
        after_reads (IsCurrent id st) (λ s. IsCurrent id st s ⊎ IsStuck d.kind id st d s) Applied
          (require_current d) (λ a. record_decision env d >>= λ _. perform env invoke d.kind a d)
          (λ s h. inl h)
          (λ a s h.
            let facts = current_required a s e h.0 h.1 in
            subst
              (λ (x : ControllerState).
                Post Applied (λ s. IsCurrent id st s ⊎ IsStuck d.kind id st d s)
                  ((record_decision env d >>= λ _. perform env invoke d.kind x d) s).0
                  ((record_decision env d >>= λ _. perform env invoke d.kind x d) s).1)
              (sym facts.0) (decided_then (facts.1, facts.2) s h.0))
          store
