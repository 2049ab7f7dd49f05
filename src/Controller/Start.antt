-- ===== src/Controller/Start.antt =====
-- How a controller begins, and how it is told to reopen.
use mathlib.Core.Path.{subst}
use portable_runtime.Base.{
  ◌+◌, String, ◌≡◌, ◌≢◌, refl, sym, ap, ◌∙◌, inl, inr, true, false, arith, eq_iff, Bool-cases,
  Option, none, some, [], ◌∷◌, All, All-map, ◌==◌,
}
use portable_runtime.Base.Result.{ok}
use portable_runtime.Controller.Models.{ControllerState, open_, reopen_required, is_valid_state}
use portable_runtime.Controller.Recording.{state_of, get, record_state}
use portable_runtime.Controller.Operations.{
  CreateArguments, new_state, chosen_id, create, reopened, require_reopening,
}
use portable_runtime.Controller.Stable.{IsStable, record_event-Keeps}
use portable_runtime.Controller.Current.{
  IsCurrent, IsCurrent-stable, IsOlder, IsRecord, get_lem, record_state-Triple,
}
use portable_runtime.Controller.Moves.{MovedTo}
use portable_runtime.Journal.{
  Store, Env, Event, state_recorded, reopen_needed, find_event, same_event, same_event-eq,
  new_event, append_beside, record_event, append_event, ◌>>=◌, M, pure, ◌>>◌, utcnow,
}
use portable_runtime.Journal.Order.{All-append, Any-append_right, find-All}
use portable_runtime.Journal.Logic.{Post, Triple, bind, after, after_reads, after_require}

-- The event is no state of the controller.
abbrev pub IsForeign : String → Event → Type 0
IsForeign id e = e.subject_ref ≡ id → state_of e.payload ≡ none

-- No state of the controller is recorded.
abbrev pub IsUnknown : String → Store → Type 0
IsUnknown id s = All (IsForeign id) s.events

-- A state that `create` may return.
abbrev pub Begins : CreateArguments → ControllerState → Type 0
Begins a st =
    (st.version ≡ 0)
    × (st.status ≡ open_)
    × (st.active_closure_ref ≡ none)
    × (st.work_proposal_ref ≡ none)
    × (st.responsibility_ref ≡ a.responsibility_ref)
    × (st.subject_ref ≡ a.subject_ref)
    × (st.context_refs ≡ a.context_refs)
    × (st.candidate_refs ≡ a.candidate_refs)
    × (st.open_issue_refs ≡ a.open_issue_refs)
    × (st.pending_ref ≡ none)
    × (st.last_revision_ref ≡ none)
    × (st.last_decision_ref ≡ none)
    × (st.last_result_ref ≡ none)

-- A state that `reopen_required` may return.
abbrev pub MustReopen : ControllerState → ControllerState → Type 0
MustReopen st st' =
    (st'.version ≡ st.version + 1)
    × (st'.status ≡ reopen_required)
    × (st'.pending_ref ≡ none)
    × (st'.active_closure_ref ≡ st.active_closure_ref)
    × (st'.work_proposal_ref ≡ st.work_proposal_ref)

module _ (id : String) where
  IsUnknown-stable : IsStable (IsUnknown id)
  IsUnknown-stable = record {
    draws = λ s n h. h;
    works = λ s w h. h;
    events = λ s e k h. All-append (IsForeign id) s.events (e ∷ []) h (λ _. k, tt);
  }

  module _ (env : Env) (st : ControllerState) where
    foreign_twin :
        (x e : Event) (s : Store)
        → find_event e.id s.events ≡ some x
        → e.subject_ref ≡ id
        → e.payload ≡ state_recorded st
        → IsUnknown id s
        → same_event x e ≡ false
    foreign_twin x e s f i p h = elim (Bool-cases (same_event x e)) [
      | inr k ↦ k
      | inl k ↦
          let twin = same_event-eq x e k in
          let same : x.payload ≡ state_recorded st = ap (λ (v : Event). v.payload) twin ∙ p in
          let here : state_of x.payload ≡ none =
            find-All (IsForeign id) e.id s.events x f h
              (ap (λ (v : Event). v.subject_ref) twin ∙ i) in
          let k : some st ≡ none = ap state_of (sym same) ∙ here in cc
    ]

    first_beside :
        (x : Option Event) (e : Event) (s : Store)
        → find_event e.id s.events ≡ x
        → e.subject_ref ≡ id
        → e.payload ≡ state_recorded st
        → st.id ≡ id
        → is_valid_state st ≡ true
        → IsUnknown id s
        → Post
            (λ _ s. IsCurrent id st s)
            (IsUnknown id)
            (append_beside x e s).0
            (append_beside x e s).1
    first_beside none e s f i p n v h = record {
      same_id = n;
      valid = v;
      recorded = Any-append_right (IsRecord id st) s.events (e ∷ []) (inl (i, p));
      newest =
          All-append (IsOlder id st) s.events (e ∷ []) (All-map (λ x o k. rw (o k) tt) s.events h)
            (λ k. rw p (v, inl refl), tt);
    }
    first_beside (some x) e s f i p n v h = rw (foreign_twin x e s f i p h) h

    first_state-Triple :
        st.id ≡ id
        → is_valid_state st ≡ true
        → Triple (IsUnknown id) (record_state env st) (λ _ s. IsCurrent id st s) (IsUnknown id)
    unfolding record_state record_event append_event
    first_state-Triple n v =
        bind _ _ _ (λ _. IsUnknown id) _ _ (λ s h. h)
          λ event_id.
            bind _ _ _ (λ _. IsUnknown id) _ _ (λ s h. h)
              λ now.
                bind _ _ _ (λ _. IsCurrent id st) _ _
                  (λ s h.
                    first_beside (find_event event_id s.events)
                      (new_event event_id now st.id (state_recorded st)) s refl n refl n v h)
                  λ _ s h. h

  module _ (env : Env) where
    chosen :
        (o : Option String)
        → o ≡ some id
        → id ≢ ""
        → Triple (IsUnknown id) (chosen_id env o) (λ x s. IsUnknown id s × (x ≡ id)) (IsUnknown id)
    chosen none given named s h = cc
    chosen (some x) given named s h =
        let same : x ≡ id = cc in
        let ne : (x == "") ≡ false = rw same (ground (arith, eq_iff id "")) in rw ne (h, same)

    -- Where no state of a controller is recorded, `create` with its identifier makes an open state of
    -- version 0, with the given responsibility, subject, context, candidates and open issues and no
    -- other reference, the current one; or it raises, and still no state is recorded.
    pub create-Begins :
        (a : CreateArguments) (s : Store)
        → a.controller_id ≡ some id
        → id ≢ ""
        → IsUnknown id s
        → Post (MovedTo id (Begins a)) (IsUnknown id) (create env a s).0 (create env a s).1
    unfolding create is_valid_state
    create-Begins a s given named =
        bind (IsUnknown id) (IsUnknown id) (MovedTo id (Begins a))
          (λ x s. IsUnknown id s × (x ≡ id)) (chosen_id env a.controller_id) _
          (chosen a.controller_id given named)
          (λ x.
            after _ _ _ _ _ (λ s h. h) (λ s h. h.0)
              λ created.
                after _ _ _ _ _ (λ s h. h) (λ s h. h.0)
                  λ updated.
                    after _ _ _ _ _ (λ s h. h) (λ s h. h.0)
                      λ existing.
                        after _ _ _ _ _ (λ s h. h) (λ s h. h.0)
                          λ _.
                            bind _ _ _ (λ _ s. IsCurrent id (new_state a x created updated) s) _ _
                              (λ s h.
                                first_state-Triple env (new_state a x created updated) h.1 refl s
                                  h.0)
                              λ _ s h. (
                                h,
                                (
                                  refl, refl, refl, refl, refl, refl, refl, refl, refl, refl, refl,
                                  refl, refl,
                                ),
                              ))
          s

  found_state :
      (st a : ControllerState) (o : Option ControllerState) (s : Store)
      → IsCurrent id st s
      → get id s ≡ ok o
      → o ≡ some a
      → a ≡ st
  found_state st a o s h k e = cc (get_lem id st s h, k, e)

  module _ (env : Env) (st : ControllerState) (reason : String) where
    abbrev rest : ControllerState → M ControllerState
    rest a = do
      record_event env a.id (reopen_needed reason a.version)
      now ← utcnow env
      let next = reopened a now
      record_state env next
      pure next

    rest-Triple : Triple (IsCurrent id st) (rest st) (MovedTo id (MustReopen st)) (IsCurrent id st)
    rest-Triple =
        after _ _ _ _ _ (record_event-Keeps (IsCurrent-stable id st) env st.id _ refl) (λ s h. h)
          λ _.
            bind _ _ _ (λ _. IsCurrent id st) _ _ (λ s h. (IsCurrent-stable id st).draws s _ h)
              λ now.
                bind _ _ _ (λ _. IsCurrent id (reopened st now)) _ _
                  (λ s h.
                    record_state-Triple id st env (reopened st now) h.same_id
                      (unfold is_valid_state in refl) (omega arith) s h)
                  λ _ s h. (h, (refl, refl, refl, refl, refl))

    -- `reopen_required` on the current state of a controller makes a state of the next version that
    -- waits to be reopened, with nothing pending, the current one; or it raises, and the current
    -- state is still the same.
    pub reopening_follows :
        (s : Store)
        → IsCurrent id st s
        → Post
            (MovedTo id (MustReopen st))
            (IsCurrent id st)
            (require_reopening env id reason s).0
            (require_reopening env id reason s).1
    unfolding require_reopening
    reopening_follows =
        after_reads (IsCurrent id st) (IsCurrent id st) (MovedTo id (MustReopen st)) (get id) _
          (λ s h. h)
          λ found.
            after_require _ _ _ _ _ _ (λ s h. h.0)
              λ a has s h.
                subst
                  (λ (x : ControllerState).
                    Post (MovedTo id (MustReopen st)) (IsCurrent id st) (rest x s).0 (rest x s).1)
                  (sym (found_state st a found s h.0 h.1 has)) (rest-Triple s h.0)
