-- ===== src/Controller/Handing.antt =====
-- What handing work off and invoking a capability make of the current state.
use portable_runtime.Base.{
  ℕ, String, ◌≡◌, ◌≢◌, refl, sym, ◌∙◌, ◌⊎◌, inl, inr, true, arith, eq_iff, some,
}
use portable_runtime.Controller.Models.{
  ControllerState, waiting, ControllerDecision, is_valid_state, pending_allowed,
}
use portable_runtime.Controller.Recording.{record_state}
use portable_runtime.Controller.Operations.{unchanged}
use portable_runtime.Controller.Apply.{
  CapabilityRequest, hand_off, awaiting, resumed, capability_request, invoke_and_resume,
  work_proposal,
}
use portable_runtime.Controller.Machine.{HandsOff, Awaits, Resumes}
use portable_runtime.Controller.Stable.{IsStable, with_fact, record_event-Keeps, propose-Keeps}
use portable_runtime.Controller.Current.{IsCurrent, IsCurrent-stable, record_state-Triple}
use portable_runtime.Controller.Moves.{MovedTo, transition-Triple}
use portable_runtime.Responsibility.Kernel.Objects.{id_of}
use portable_runtime.Responsibility.Kernel.Saved.{propose-id}
use portable_runtime.Journal.{Store, Env, CapabilityResult, M}
use portable_runtime.Journal.Logic.{
  Keeps, Triple, bind, after, after_require, after_raise_if, keeps_and_returns, weaken,
}

-- New identifiers are not blank.
abbrev pub NamesAll : Env → Type 0
NamesAll env = (kind : String) (n : ℕ) → env.new_id kind n ≢ ""

-- The runtime records no controller state.
abbrev pub LeavesControllers : (CapabilityRequest → M CapabilityResult) → Type 1
LeavesControllers invoke =
    (P : Store → Type 0) → IsStable P → (request : CapabilityRequest) → Keeps P (invoke request)

pending_some : (ref : String) → ref ≢ "" → pending_allowed waiting (some ref) ≡ true
pending_some ref n = ground (arith, eq_iff ref "")

-- The runtime has raised: the controller waits for its answer.
abbrev pub Stuck : String → ControllerState → ControllerDecision → Store → Type 0
Stuck id st d s = (t : ControllerState) × MovedTo id (Awaits st d) t s

module _ (env : Env) (id : String) (st : ControllerState) (names : NamesAll env) where
  pub hand_off-Triple :
      (d : ControllerDecision)
      → Triple (IsCurrent id st) (hand_off env st d) (MovedTo id (HandsOff st d)) (IsCurrent id st)
  unfolding hand_off
  hand_off-Triple d =
      after_require _ _ _ _ _ _ (λ s h. h)
        λ responsibility_ref _.
          after_require _ _ _ _ _ _ (λ s h. h)
            λ subject_ref _.
              after_require _ _ _ _ _ _ (λ s h. h)
                λ assessment_ref _.
                  after_require _ _ _ _ _ _ (λ s h. h)
                    λ title _.
                      after_require _ _ _ _ _ _ (λ s h. h)
                        λ closure_ref _.
                          after_raise_if _ _ _ _ _ _ (λ s h. h)
                            λ _.
                              after _ _ _ _ _ (λ s h. h) (λ s h. h)
                                λ found.
                                  after_require _ _ _ _ _ _ (λ s h. h)
                                    λ c _.
                                      after_require _ _ _ _ _ _ (λ s h. h)
                                        λ effect _.
                                          after_raise_if _ _ _ _ _ _ (λ s h. h)
                                            λ _.
                                              after_raise_if _ _ _ _ _ _ (λ s h. h)
                                                λ _.
                                                  after _ _ _ _ _ (λ s h. h) (λ s h. h)
                                                    λ definition.
                                                      bind _ _ _
                                                        (λ new s. IsCurrent id st s × (new ≢ "")) _
                                                        _
                                                        (λ s h. (
                                                          (IsCurrent-stable id st).draws s _ h,
                                                          names "resp" s.draws,
                                                        ))
                                                        λ new.
                                                          let named : IsStable
                                                            (λ s. IsCurrent id st s × (new ≢ "")) =
                                                            with_fact (IsCurrent id st) (new ≢ "")
                                                            (IsCurrent-stable id st) in
                                                          after _ _ _ _ _ (λ s h. named.draws s _ h)
                                                            (λ s h. h.0)
                                                            λ created.
                                                            after _ _ _ _ _
                                                            (λ s h. named.draws s _ h) (λ s h. h.0)
                                                            λ now.
                                                            let w =
                                                            work_proposal new created
                                                            responsibility_ref definition.version
                                                            assessment_ref subject_ref title d c in
                                                            bind _ _ _
                                                            (λ saved s.
                                                            (IsCurrent id st s × (new ≢ ""))
                                                            × (id_of saved ≡ new))
                                                            _ _
                                                            (keeps_and_returns _ _
                                                            (λ saved. id_of saved ≡ new) _
                                                            (λ s h. h.0)
                                                            (propose-Keeps named env w now)
                                                            (propose-id env w now))
                                                            λ saved.
                                                            after _ _ _ _ _
                                                            (record_event-Keeps
                                                            (with_fact
                                                            (λ s. IsCurrent id st s × (new ≢ ""))
                                                            (id_of saved ≡ new) named)
                                                            env st.id _ refl)
                                                            (λ s h. h.0.0)
                                                            λ _ s h.
                                                            transition-Triple env id st
                                                            (HandsOff st d) d waiting
                                                            (some (id_of saved))
                                                            (record unchanged {
                                                            work_proposal_ref =
                                                            some (some (id_of saved));
                                                            last_result_ref =
                                                            some (some (id_of saved));
                                                            })
                                                            (pending_some (id_of saved)
                                                            (λ e. h.0.1 (sym h.1 ∙ e)))
                                                            (λ now. (
                                                            refl,
                                                            refl,
                                                            refl,
                                                            (id_of saved, refl, refl),
                                                            ))
                                                            s h.0.0

  module _ (invoke : CapabilityRequest → M CapabilityResult)
      (leaves : LeavesControllers invoke) where
    pub invoke-Triple :
        (d : ControllerDecision)
        → Triple
            (IsCurrent id st)
            (invoke_and_resume env invoke st d)
            (MovedTo id (Resumes st d))
            (λ s. IsCurrent id st s ⊎ Stuck id st d s)
    unfolding invoke_and_resume is_valid_state
    invoke-Triple d =
        after_require _ _ _ _ _ _ (λ s h. inl h)
          λ capability _.
            bind _ _ _ (λ request s. IsCurrent id st s × (request ≢ "")) _ _
              (λ s h. ((IsCurrent-stable id st).draws s _ h, names "request" s.draws))
              λ request.
                after _ _ _ _ _ (λ s h. ((IsCurrent-stable id st).draws s _ h.0, h.1))
                  (λ s h. inl h.0)
                  λ now.
                    let t = awaiting st d request now in
                    let stuck : (s : Store)
                        → (IsCurrent id t s × (request ≢ ""))
                        → IsCurrent id st s ⊎ Stuck id st d s =
                      λ s h. inr (t, (h.0, (refl, refl, refl, (request, refl, h.1)))) in
                    let kept : IsStable (λ s. IsCurrent id t s × (request ≢ "")) =
                      with_fact (IsCurrent id t) (request ≢ "") (IsCurrent-stable id t) in
                    bind _ _ _ (λ _ s. IsCurrent id t s × (request ≢ "")) _ _
                      (λ s h.
                        weaken {P = IsCurrent id st} (record_state env t) (λ _ s k. (k, h.1))
                          (λ s k. inl k)
                          (record_state-Triple id st env t h.0.same_id (pending_some request h.1)
                            (omega arith))
                          s h.0)
                      λ _.
                        after _ _ _ _ _ (leaves _ kept (capability_request st d request capability))
                          stuck
                          λ result.
                            after _ _ _ _ _ (record_event-Keeps kept env st.id _ refl) stuck
                              λ event.
                                after _ _ _ _ _ (λ s h. kept.draws s _ h) stuck
                                  λ later.
                                    let next = resumed t event.id later in
                                    bind _ _ _ (λ _ s. IsCurrent id next s) _ _
                                      (λ s h.
                                        weaken {P = IsCurrent id t} (record_state env next)
                                          (λ _ s k. k) (λ s k. stuck s (k, h.1))
                                          (record_state-Triple id t env next h.0.same_id refl
                                            (omega arith))
                                          s h.0)
                                      λ _ s h. (h, (omega arith, refl, refl, refl, refl))
