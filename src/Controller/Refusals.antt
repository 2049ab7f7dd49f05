-- ===== src/Controller/Refusals.antt =====
-- What `apply` refuses, before it records anything.
use portable_runtime.Base.{
  String, ◌≡◌, ◌≢◌, refl, ap, ◌∙◌, ◌⊎◌, inl, inr, false, arith, eqb_iff, some,
}
use portable_runtime.Base.Result.{ok, err}
use portable_runtime.Controller.Models.{
  ControllerState, open_, waiting, ControllerDecision, ControllerDecisionKind, invoke_capability,
  form_closure, propose_work, assess_revision, close, reopen, wait,
}
use portable_runtime.Controller.Recording.{get}
use portable_runtime.Controller.Guards.{
  admits, committed, is_assess_revision, require_state, require_current, refusal,
}
use portable_runtime.Controller.Apply.{CapabilityRequest, apply}
use portable_runtime.Controller.Current.{IsCurrent, get_lem}
use portable_runtime.Journal.{Store, Env, CapabilityResult, M, ◌>>=◌}
use portable_runtime.Journal.Errors.{
  Error, stale_decision, closure_admits_only, handed_off_requires_revision,
}

-- The error of a decision that is not for the version of the state, or not of a kind that it admits.
abbrev pub Refused : ControllerState → ControllerDecision → Error → Type 0
Refused st d e =
    ((d.state_version ≢ st.version) × (e ≡ stale_decision))
    ⊎ ((d.state_version ≡ st.version)
        × (admits st.status st d.kind ≡ false)
        × (e ≡ refusal st.status st))

not_committed :
    (kind : ControllerDecisionKind)
    → (kind ≡ invoke_capability) ⊎ ((kind ≡ form_closure) ⊎ (kind ≡ reopen))
    → committed kind ≡ false
not_committed kind (inl e) = rw e refl
not_committed kind (inr (inl e)) = rw e refl
not_committed kind (inr (inr e)) = rw e refl

not_assessed :
    (kind : ControllerDecisionKind) → kind ≢ assess_revision → is_assess_revision kind ≡ false
not_assessed invoke_capability n = refl
not_assessed form_closure n = refl
not_assessed propose_work n = refl
not_assessed assess_revision n = absurd (n refl)
not_assessed close n = refl
not_assessed reopen n = refl
not_assessed wait n = refl

module _ (env : Env) (invoke : CapabilityRequest → M CapabilityResult) (id : String)
    (st : ControllerState) (d : ControllerDecision) where
  Refused-state : (e : Error) → Refused st d e → require_state d (ok (some st)) ≡ err e
  Refused-state e (inl (n, k)) = ground (arith, eqb_iff d.state_version st.version)
  Refused-state e (inr (n, a, k)) = ground (arith, eqb_iff d.state_version st.version)

  Refused-current :
      (s : Store) (e : Error)
      → d.controller_ref ≡ id
      → IsCurrent id st s
      → Refused st d e
      → require_current d s ≡ err e
  unfolding require_current
  Refused-current s e i h r =
      let found : get d.controller_ref s ≡ ok (some st) = rw i (get_lem id st s h) in
      ap (require_state d) found ∙ Refused-state e r

  -- A decision for another version than the current state's, or of a kind that the state does not
  -- admit, raises the error for that and leaves the store as it is.
  pub apply_refuses :
      (s : Store) (e : Error)
      → d.controller_ref ≡ id
      → IsCurrent id st s
      → Refused st d e
      → apply env invoke d s ≡ (err e, s)
  unfolding apply ◌>>=◌
  apply_refuses s e i h r = rw (Refused-current s e i h r) refl

  -- While a closure is active in an open controller, no capability is invoked, no other closure is
  -- formed and nothing is reopened: such a decision raises the error for that, and nothing changes.
  pub closure_binds :
      (s : Store) (closure_ref : String)
      → d.controller_ref ≡ id
      → IsCurrent id st s
      → d.state_version ≡ st.version
      → st.active_closure_ref ≡ some closure_ref
      → st.status ≡ open_
      → (d.kind ≡ invoke_capability) ⊎ ((d.kind ≡ form_closure) ⊎ (d.kind ≡ reopen))
      → apply env invoke d s ≡ (err closure_admits_only, s)
  unfolding admits
  closure_binds s closure_ref i h v a o k =
      apply_refuses s closure_admits_only i h
        (inr (v, rw (o, a) (not_committed d.kind k), rw (o, a) refl))

  -- Once the work of an active closure is handed off, a waiting controller takes no decision but the
  -- assessment of a revision: any other raises the error for that, and nothing changes.
  pub handed_off_binds :
      (s : Store) (closure_ref proposal_ref : String)
      → d.controller_ref ≡ id
      → IsCurrent id st s
      → d.state_version ≡ st.version
      → st.active_closure_ref ≡ some closure_ref
      → st.work_proposal_ref ≡ some proposal_ref
      → st.status ≡ waiting
      → d.kind ≢ assess_revision
      → apply env invoke d s ≡ (err handed_off_requires_revision, s)
  unfolding admits
  handed_off_binds s closure_ref proposal_ref i h v a p w k =
      apply_refuses s handed_off_requires_revision i h
        (inr (v, rw (w, a, p) (not_assessed d.kind k), rw (w, p) refl))
