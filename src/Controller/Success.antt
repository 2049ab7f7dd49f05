-- ===== src/Controller/Success.antt =====
-- Decisions that `apply` carries out, where new identifiers are new.
use portable_runtime.Base.{
  ℕ, ◌+◌, ◌≤◌, String, ◌≡◌, ◌≢◌, refl, ap, ◌∙◌, ◌⊎◌, inl, inr, true, arith, eqb_iff, eq_iff,
  Bool-cases, Option, none, some, List, [], ◌∷◌, ◌++◌, ◌==◌,
}
use portable_runtime.Base.Result.{ok, is_ok}
use portable_runtime.Controller.Models.{
  ControllerState, ControllerStatus, ControllerDecision, ControllerDecisionKind, close, reopen,
  wait, open_, waiting, closed,
}
use portable_runtime.Controller.Recording.{get, record_state, record_decision}
use portable_runtime.Controller.Guards.{admits, require_state, require_current}
use portable_runtime.Controller.Operations.{Changes, unchanged, moved, transition}
use portable_runtime.Controller.Apply.{CapabilityRequest, perform, apply}
use portable_runtime.Controller.Current.{IsCurrent, get_lem}
use portable_runtime.Journal.{
  Store, Env, Event, Payload, CapabilityResult, M, find_event, record_event, append_event,
  new_event, ◌>>=◌, decision_selected, state_recorded,
}

-- No event has an identifier that is drawn later, and no two drawn ones are equal.
pub record IsFresh (env : Env) (s : Store) : Type 0 where
  pub unused : (n : ℕ) → s.draws ≤ n → find_event (env.new_id "event" n) s.events ≡ none
  pub distinct : (m n : ℕ) → env.new_id "event" m ≡ env.new_id "event" n → m ≡ n

find-append :
    (id : String) (es : List Event) (e : Event)
    → find_event id es ≡ none
    → e.id ≢ id
    → find_event id (es ++ e ∷ []) ≡ none
unfolding find_event
find-append id [] e h n = ground (arith, eq_iff e.id id)
find-append id (x ∷ xs) e h n = elim (Bool-cases (x.id == id)) [
  | inl b ↦ let k : some x ≡ none = rw b at h in cc
  | inr b ↦ rw b (find-append id xs e (rw b at h) n)
]

-- The store with one more event, after two draws.
abbrev with_event : Event → Store → Store
with_event e s = record s { events = s.events ++ e ∷ []; draws = s.draws + 1 + 1 }

module _ (env : Env) where
  abbrev drawn : String → Payload → Store → Event
  drawn subject payload s =
      new_event (env.new_id "event" s.draws) (env.clock (s.draws + 1)) subject payload

  record_event_ok :
      (subject : String) (payload : Payload) (s : Store)
      → IsFresh env s
      → record_event env subject payload s
        ≡ (ok (drawn subject payload s), with_event (drawn subject payload s) s)
  unfolding record_event append_event ◌>>=◌
  record_event_ok subject payload s f = rw (f.unused s.draws (omega arith)) refl

  with_event-IsFresh :
      (subject : String) (payload : Payload) (s : Store)
      → IsFresh env s
      → IsFresh env (with_event (drawn subject payload s) s)
  with_event-IsFresh subject payload s f = record {
    unused = λ n l.
        find-append (env.new_id "event" n) s.events (drawn subject payload s)
          (f.unused n (omega arith))
          (λ e. let k : s.draws ≡ n = f.distinct s.draws n e in omega arith);
    distinct = f.distinct;
  }

  drawn-IsFresh : (s : Store) → IsFresh env s → IsFresh env (record s { draws = s.draws + 1 })
  drawn-IsFresh s f = record { unused = λ n l. f.unused n (omega arith); distinct = f.distinct }

  transition_ok :
      (st : ControllerState) (d : ControllerDecision) (status : ControllerStatus)
      (pending : Option String) (u : Changes) (s : Store)
      → IsFresh env s
      → (transition env st d status pending u s).0
        ≡ ok (moved st d status pending u (env.clock s.draws))
  unfolding transition record_state ◌>>=◌
  transition_ok st d status pending u s f =
      rw
        (record_event_ok st.id (state_recorded (moved st d status pending u (env.clock s.draws)))
          (record s { draws = s.draws + 1 }) (drawn-IsFresh s f))
        refl

  module _ (invoke : CapabilityRequest → M CapabilityResult) (id : String) (st : ControllerState)
      (d : ControllerDecision) where
    admitted_state :
        d.state_version ≡ st.version
        → admits st.status st d.kind ≡ true
        → require_state d (ok (some st)) ≡ ok st
    admitted_state v a = ground (arith, eqb_iff d.state_version st.version)

    admitted_current :
        (s : Store)
        → d.controller_ref ≡ id
        → IsCurrent id st s
        → d.state_version ≡ st.version
        → admits st.status st d.kind ≡ true
        → require_current d s ≡ ok st
    unfolding require_current
    admitted_current s i h v a =
        let found : get d.controller_ref s ≡ ok (some st) = rw i (get_lem id st s h) in
        ap (require_state d) found ∙ admitted_state v a

    performed :
        (kind : ControllerDecisionKind) (s : Store)
        → IsFresh env s
        → (kind ≡ close) ⊎ ((kind ≡ reopen) ⊎ (kind ≡ wait))
        → is_ok (perform env invoke kind st d s).0 ≡ true
    performed kind s f (inl e) = rw (e, transition_ok st d closed none unchanged s f) refl
    performed kind s f (inr (inl e)) =
        rw
          (
            e,
            transition_ok st d open_ none
                (record unchanged { active_closure_ref = some none; work_proposal_ref = some none })
                s f,
          )
          refl
    performed kind s f (inr (inr e)) =
        rw (e, transition_ok st d waiting (some d.id) unchanged s f) refl

    -- Where new identifiers are new, a decision to close, to reopen or to wait that is for the current
    -- version and that the current state admits is carried out: `apply` does not raise.
    pub admitted_succeeds :
        (s : Store)
        → IsFresh env s
        → d.controller_ref ≡ id
        → IsCurrent id st s
        → d.state_version ≡ st.version
        → admits st.status st d.kind ≡ true
        → (d.kind ≡ close) ⊎ ((d.kind ≡ reopen) ⊎ (d.kind ≡ wait))
        → is_ok (apply env invoke d s).0 ≡ true
    unfolding apply record_decision ◌>>=◌
    admitted_succeeds s f i h v a k =
        rw (admitted_current s i h v a, record_event_ok d.controller_ref (decision_selected d) s f)
          (performed d.kind (with_event (drawn d.controller_ref (decision_selected d) s) s)
            (with_event-IsFresh d.controller_ref (decision_selected d) s f) k)
