-- ===== src/Controller/Moves.antt =====
-- What each branch of `apply` makes of the current state.
use portable_runtime.Base.{ℕ, String, ◌≡◌, ◌≢◌, refl, true, arith, eq_iff, Option, none, some}
use portable_runtime.Controller.Models.{
  ControllerState, ControllerStatus, open_, waiting, closed, reopen_required, ControllerDecision,
  is_valid_state, pending_allowed, RevisionAssessment,
}
use portable_runtime.Controller.Operations.{
  Changes, unchanged, moved, transition, form, assess, status_after, pending_after,
}
use portable_runtime.Controller.Machine.{Closes, Assesses}
use portable_runtime.Controller.Stable.{record_event-Keeps}
use portable_runtime.Controller.Current.{IsCurrent, IsCurrent-stable, record_state-Triple}
use portable_runtime.Journal.{Store, Env}
use portable_runtime.Journal.Logic.{Triple, bind, after, after_require, after_raise_if}

-- The controller has moved to a state with the property.
abbrev pub MovedTo : String → (ControllerState → Type 0) → ControllerState → Store → Type 0
MovedTo id R st' s = IsCurrent id st' s × R st'

module _ (env : Env) (id : String) (st : ControllerState) where
  pub transition-Triple :
      (R : ControllerState → Type 0) (d : ControllerDecision) (status : ControllerStatus)
      (pending : Option String) (u : Changes)
      → pending_allowed status pending ≡ true
      → ((now : ℕ) → R (moved st d status pending u now))
      → Triple
          (IsCurrent id st)
          (transition env st d status pending u)
          (MovedTo id R)
          (IsCurrent id st)
  unfolding transition is_valid_state
  transition-Triple R d status pending u v r =
      bind _ _ _ (λ _. IsCurrent id st) _ _ (λ s h. (IsCurrent-stable id st).draws s _ h)
        λ now.
          bind _ _ _ (λ _. IsCurrent id (moved st d status pending u now)) _ _
            (λ s h.
              record_state-Triple id st env (moved st d status pending u now) h.same_id v
                (omega arith) s h)
            λ _ s h. (h, r now)

  pub form-Triple :
      (d : ControllerDecision)
      → Triple (IsCurrent id st) (form env st d) (MovedTo id (Closes st d)) (IsCurrent id st)
  unfolding form
  form-Triple d =
      after_require _ _ _ _ _ _ (λ s h. h)
        λ c has.
          after_raise_if _ _ _ _ _ _ (λ s h. h)
            λ _.
              after_raise_if _ _ _ _ _ _ (λ s h. h)
                λ _.
                  after_raise_if _ _ _ _ _ _ (λ s h. h)
                    λ _.
                      after_raise_if _ _ _ _ _ _ (λ s h. h)
                        λ _.
                          after_raise_if _ _ _ _ _ _ (λ s h. h)
                            λ _.
                              after _ _ _ _ _
                                (record_event-Keeps (IsCurrent-stable id st) env st.id _ refl)
                                (λ s h. h)
                                λ event.
                                  transition-Triple (Closes st d) d open_ none
                                    (record unchanged {
                                      active_closure_ref = some (some c.id);
                                      last_result_ref = some (some event.id);
                                    })
                                    refl λ now. (refl, refl, refl, (c, has, refl))

  pending_ok :
      (status : ControllerStatus) (ref : String)
      → ref ≢ ""
      → pending_allowed status (pending_after status ref) ≡ true
  pending_ok open_ ref n = refl
  pending_ok waiting ref n = ground (arith, eq_iff ref "")
  pending_ok closed ref n = refl
  pending_ok reopen_required ref n = refl

  pub assess-Triple :
      (d : ControllerDecision)
      → ((r : RevisionAssessment) → d.revision ≡ some r → r.id ≢ "")
      → Triple (IsCurrent id st) (assess env st d) (MovedTo id (Assesses st d)) (IsCurrent id st)
  unfolding assess
  assess-Triple d named =
      after_require _ _ _ _ _ _ (λ s h. h)
        λ r has.
          after_require _ _ _ _ _ _ (λ s h. h)
            λ closure_ref closed.
              after_require _ _ _ _ _ _ (λ s h. h)
                λ proposal_ref proposed.
                  after_raise_if _ _ _ _ _ _ (λ s h. h)
                    λ same.
                      after _ _ _ _ _ (λ s h. h) (λ s h. h)
                        λ found.
                          after_require _ _ _ _ _ _ (λ s h. h)
                            λ work _.
                              after_raise_if _ _ _ _ _ _ (λ s h. h)
                                λ _.
                                  after_raise_if _ _ _ _ _ _ (λ s h. h)
                                    λ _.
                                      after _ _ _ _ _
                                        (record_event-Keeps (IsCurrent-stable id st) env st.id _
                                          refl)
                                        (λ s h. h)
                                        λ _.
                                          transition-Triple (Assesses st d) d
                                            (status_after r.recommended_disposition) _
                                            (record unchanged {
                                              last_revision_ref = some (some r.id);
                                              last_result_ref = some (some r.id);
                                            })
                                            (pending_ok (status_after r.recommended_disposition)
                                              r.id (named r has))
                                            λ now. (
                                              refl,
                                              refl,
                                              refl,
                                              (
                                                r,
                                                has,
                                                ground (arith, eq_iff r.closure_ref closure_ref),
                                                refl,
                                                refl,
                                              ),
                                            )
