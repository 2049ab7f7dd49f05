-- ===== src/Controller/Unreadable.antt =====
-- A recorded state that its own validator refuses.
use portable_runtime.Base.{
  String, ◌≡◌, refl, ap, ◌∙◌, sym, ◌⊎◌, inl, inr, true, false, eq_iff, Bool-cases, Option, none,
  some, List, [], ◌∷◌, ◌==◌, all, keep, Any, Any-map,
}
use portable_runtime.Base.Result.{Result, ok, err, is_ok}
use portable_runtime.Controller.Models.{
  ControllerState, ControllerDecision, ControllerDecisionKind, is_valid_state, wait, waiting,
}
use portable_runtime.Controller.Recording.{
  state_of, collect, recorded_states, get, record_state, record_decision,
}
use portable_runtime.Controller.Guards.{admits, require_state, require_current}
use portable_runtime.Controller.Progress.{require_state_lem}
use mathlib.Core.Path.{subst}
use portable_runtime.Controller.Operations.{unchanged, transition, moved}
use portable_runtime.Controller.Apply.{CapabilityRequest, perform, apply}
use portable_runtime.Controller.Current.{IsCurrent, get_lem, with_state}
use portable_runtime.Journal.{
  Store, Env, Event, CapabilityResult, M, state_recorded, find_event, same_event, same_event-eq,
  new_event, append_beside, append_event, record_event, list_events, sort_events, ◌>>=◌,
}
use portable_runtime.Controller.Success.{IsFresh, admitted_succeeds}
use portable_runtime.Journal.Errors.{Error, invalid_controller_state}
use portable_runtime.Journal.Order.{Any-append_right, Any-keep, Any-sort, find-Any}
use portable_runtime.Journal.Logic.{Post, Triple, bind, after, after_reads, weaken}

abbrev Anything : Store → Type 0
Anything s = Unit

-- An event of the controller records a state that is not valid.
abbrev pub IsBroken : String → Event → Type 0
IsBroken id e =
    (e.subject_ref ≡ id)
    × ((t : ControllerState) × (e.payload ≡ state_recorded t) × (is_valid_state t ≡ false))

invalid_with :
    (o : Option ControllerState) (rest : List ControllerState)
    → ((t : ControllerState) × (o ≡ some t) × (is_valid_state t ≡ false))
      ⊎ (all is_valid_state rest ≡ false)
    → all is_valid_state (with_state o rest) ≡ false
invalid_with none rest (inl (t, e, v)) = cc
invalid_with none rest (inr h) = h
invalid_with (some a) rest (inl (t, e, v)) = let same : a ≡ t = cc in rw (same, v) refl
invalid_with (some a) rest (inr h) =
    rw h (elim (Bool-cases (is_valid_state a)) [ inl v ↦ rw v refl | inr v ↦ rw v refl ])

collected_broken :
    (es : List Event)
    → Any
        (λ e. (t : ControllerState) × (state_of e.payload ≡ some t) × (is_valid_state t ≡ false))
        es
    → all is_valid_state (collect state_of es) ≡ false
unfolding collect
collected_broken [] h = absurd h
collected_broken (e ∷ es) (inl h) = invalid_with (state_of e.payload) (collect state_of es) (inl h)
collected_broken (e ∷ es) (inr h) =
    invalid_with (state_of e.payload) (collect state_of es) (inr (collected_broken es h))

-- A controller with such an event cannot be read back.
pub get_broken :
    (id : String) (s : Store) → Any (IsBroken id) s.events → get id s ≡ err invalid_controller_state
unfolding get recorded_states list_events
get_broken id s h =
    let sorted = Any-sort (IsBroken id) s.events h in
    let kept =
      Any-keep (IsBroken id) (λ e. e.subject_ref == id) (λ e b. (eq_iff e.subject_ref id).1 b.0)
        (sort_events s.events) sorted in
    rw
      (collected_broken (keep (λ e. e.subject_ref == id) (sort_events s.events)) (
        Any-map (λ e b. (b.1.0, rw (b.1.1) refl, b.1.2))
          (keep (λ e. e.subject_ref == id) (sort_events s.events)) kept))
      refl

module _ (env : Env) (id : String) (t : ControllerState) where
  IsBroken-beside :
      (x : Option Event) (e : Event) (s : Store)
      → find_event e.id s.events ≡ x
      → IsBroken id e
      → Post
          (λ _ s'. Any (IsBroken id) s'.events)
          Anything
          (append_beside x e s).0
          (append_beside x e s).1
  IsBroken-beside none e s f b = Any-append_right (IsBroken id) s.events (e ∷ []) (inl b)
  IsBroken-beside (some x) e s f b = elim (Bool-cases (same_event x e)) [
    | inr k ↦ rw k tt
    | inl k ↦
        let twin = same_event-eq x e k in
        let here : IsBroken id x = (
          ap (λ (v : Event). v.subject_ref) twin ∙ b.0,
          (b.1.0, ap (λ (v : Event). v.payload) twin ∙ b.1.1, b.1.2),
        ) in
        rw k (find-Any (IsBroken id) e.id s.events x f here)
  ]

  IsBroken-state-Triple :
      t.id ≡ id
      → is_valid_state t ≡ false
      → Triple Anything (record_state env t) (λ _ s. Any (IsBroken id) s.events) Anything
  unfolding record_state record_event append_event
  IsBroken-state-Triple n v =
      after _ _ _ _ _ (λ _ _. tt) (λ _ _. tt)
        λ event_id.
          after _ _ _ _ _ (λ _ _. tt) (λ _ _. tt)
            λ now.
              bind _ _ _ (λ _ s. Any (IsBroken id) s.events) _ _
                (λ s _.
                  IsBroken-beside (find_event event_id s.events)
                    (new_event event_id now t.id (state_recorded t)) s refl (n, (t, refl, v)))
                λ _ s h. h

module _ (env : Env) (invoke : CapabilityRequest → M CapabilityResult) (id : String)
    (st : ControllerState) (d : ControllerDecision) where
  blank_transition :
      st.id ≡ id
      → d.id ≡ ""
      → Triple Anything
          (transition env st d waiting (some d.id) unchanged)
          (λ _ s. Any (IsBroken id) s.events)
          Anything
  unfolding transition is_valid_state
  blank_transition n b =
      after _ _ _ _ _ (λ _ _. tt) (λ _ _. tt)
        λ now.
          bind _ _ _ (λ _ s. Any (IsBroken id) s.events) _ _
            (IsBroken-state-Triple env id (moved st d waiting (some d.id) unchanged now) n
              (rw b refl))
            λ _ s h. h

  Unreadable : ControllerState → Store → Type 0
  Unreadable _ s = get id s ≡ err invalid_controller_state

  waited :
      (kind : ControllerDecisionKind)
      → kind ≡ wait
      → st.id ≡ id
      → d.id ≡ ""
      → Triple Anything
          (record_decision env d >>= λ _. perform env invoke kind st d)
          Unreadable
          Anything
  unfolding Unreadable
  waited kind k n b =
      after _ _ _ _ _ (λ _ _. tt) (λ _ _. tt)
        λ _. rw k (
          weaken {Q = λ _ s. Any (IsBroken id) s.events} {R = Unreadable} {E = Anything}
            {F = Anything} {P = Anything} (transition env st d waiting (some d.id) unchanged)
            (λ _ s h. get_broken id s h) (λ _ _. tt) (blank_transition n b))

  blank_wait_after :
      (s : Store)
      → IsCurrent id st s
      → d.controller_ref ≡ id
      → d.kind ≡ wait
      → d.id ≡ ""
      → Post
          (λ _ s'. get id s' ≡ err invalid_controller_state)
          Anything
          (apply env invoke d s).0
          (apply env invoke d s).1
  unfolding apply
  blank_wait_after s h i k b =
      let found : get d.controller_ref s ≡ ok (some st) = rw i (get_lem id st s h) in
      after_reads (λ x. Path Store s x) Anything (λ _ s'. get id s' ≡ err invalid_controller_state)
        (require_current d) (λ a. record_decision env d >>= λ _. perform env invoke d.kind a d)
        (λ _ _. tt)
        (λ a x q.
          let here : require_current d s ≡ ok a =
            subst (λ (y : Store). require_current d y ≡ ok a) (sym q.0) q.1 in
          let facts =
            require_state_lem d st a
              (sym (ap (require_state d) found) ∙ unfold require_current in here) in
          subst
            (λ (y : ControllerState).
              Post (λ _ s'. get id s' ≡ err invalid_controller_state) Anything
                ((record_decision env d >>= λ _. perform env invoke d.kind y d) x).0
                ((record_decision env d >>= λ _. perform env invoke d.kind y d) x).1)
            (sym facts.0) (unfold Unreadable in waited d.kind k h.same_id b x tt))
        s refl

  -- What holds after a call that does not raise.
  returned :
      {A : Type 0} (P : Store → Type 0) (r : Result Error A) (s : Store)
      → is_ok r ≡ true
      → Post (λ _. P) Anything r s
      → P s
  returned P (ok a) s h k = k
  returned P (err e) s h k = cc h

  -- Where new identifiers are new, a decision to wait whose identifier is empty, that is for the current
  -- version and that the current state admits, is carried out: `apply` does not raise. After it, the
  -- controller can no longer be read, since its recorded state fails its own validation: `get` raises.
  pub blank_wait_unreadable :
      (s : Store)
      → IsFresh env s
      → IsCurrent id st s
      → d.controller_ref ≡ id
      → d.state_version ≡ st.version
      → admits st.status st d.kind ≡ true
      → d.kind ≡ wait
      → d.id ≡ ""
      → (is_ok (apply env invoke d s).0 ≡ true)
        × (get id (apply env invoke d s).1 ≡ err invalid_controller_state)
  blank_wait_unreadable s f h i v a k b =
      let carried = admitted_succeeds env invoke id st d s f i h v a (inr (inr k)) in
      (
        carried,
        returned (λ s'. get id s' ≡ err invalid_controller_state) (apply env invoke d s).0
            (apply env invoke d s).1 carried (blank_wait_after s h i k b),
      )
