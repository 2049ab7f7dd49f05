-- ===== src/Controller/Current.antt =====
-- The current state of a controller in the journal.
use portable_runtime.Base.{
  ◌<◌, String, ◌≡◌, refl, ◌⊎◌, inl, inr, Bool, true, false, arith, eq_iff, Bool-cases, Option, none,
  some, List, [], ◌∷◌, ◌==◌, all, All, Any, All-map, Any-map, if◌then◌else◌, sym, ap, ◌∙◌,
}
use mathlib.Core.Path.{subst}
use portable_runtime.Base.Result.{ok}
use portable_runtime.Controller.Models.{ControllerState, is_valid_state}
use portable_runtime.Controller.Recording.{
  state_of, collect, is_before, latest_from, latest, recorded_states, get, record_state,
}
use portable_runtime.Controller.Stable.{IsStable}
use portable_runtime.Journal.{
  Store, Env, Event, state_recorded, find_event, same_event, same_event-eq, list_events,
  sort_events, record_event, append_event, append_beside, new_event,
}
use portable_runtime.Journal.Order.{
  All-append, Any-append_left, Any-append_right, All-keep, Any-keep, All-sort, Any-sort, find-All,
}
use portable_runtime.Journal.Logic.{Triple, Post, bind}

-- The state is the current one beside another recorded one: it is that one, or of a later version.
abbrev pub Supersedes : ControllerState → Option ControllerState → Type 0
Supersedes st none = Unit
Supersedes st (some t) = (is_valid_state t ≡ true) × ((t ≡ st) ⊎ (t.version < st.version))

abbrev pub IsRecord : String → ControllerState → Event → Type 0
IsRecord id st e = (e.subject_ref ≡ id) × (e.payload ≡ state_recorded st)

abbrev pub IsOlder : String → ControllerState → Event → Type 0
IsOlder id st e = e.subject_ref ≡ id → Supersedes st (state_of e.payload)

-- The state is valid, it is recorded under its identifier, and every other state that is recorded
-- there is valid and of an earlier version.
pub record IsCurrent (id : String) (st : ControllerState) (s : Store) : Type 0 where
  pub same_id : st.id ≡ id
  pub valid : is_valid_state st ≡ true
  pub recorded : Any (IsRecord id st) s.events
  pub newest : All (IsOlder id st) s.events

abbrev pub with_state : Option ControllerState → List ControllerState → List ControllerState
with_state o rest = elim o [ none ↦ rest | some t ↦ t ∷ rest ]

module _ (id : String) (st : ControllerState) where
  IsOlder-other : (e : Event) → state_of e.payload ≡ none → IsOlder id st e
  IsOlder-other e h k = rw h tt

  pub IsCurrent-stable : IsStable (IsCurrent id st)
  IsCurrent-stable = record {
    draws = λ s n h. record {
      same_id = h.same_id;
      valid = h.valid;
      recorded = h.recorded;
      newest = h.newest;
    };
    works = λ s w h. record {
      same_id = h.same_id;
      valid = h.valid;
      recorded = h.recorded;
      newest = h.newest;
    };
    events = λ s e o h. record {
      same_id = h.same_id;
      valid = h.valid;
      recorded = Any-append_left (IsRecord id st) s.events (e ∷ []) h.recorded;
      newest = All-append (IsOlder id st) s.events (e ∷ []) h.newest (IsOlder-other e o, tt);
    };
  }

  before_newer :
      (x : ControllerState)
      → x.version < st.version
      → (is_before x st ≡ true) × (is_before st x ≡ false)
  before_newer x h = ground arith

  before_self : is_before st st ≡ false
  before_self = ground arith

  -- The later of two states, one of which is the current one.
  later_lem :
      (x y : ControllerState)
      → Supersedes st (some x)
      → Supersedes st (some y)
      → (x ≡ st) ⊎ (y ≡ st)
      → (if is_before x y then y else x) ≡ st
  later_lem x y h k (inl e) =
      rw e (elim k.1 [ inl f ↦ rw (f, before_self) refl | inr f ↦ rw ((before_newer y f).1) refl ])
  later_lem x y h k (inr e) =
      rw e (elim h.1 [ inl f ↦ rw (f, before_self) refl | inr f ↦ rw ((before_newer x f).0) refl ])

  later_Supersedes :
      (x y : ControllerState) (b : Bool)
      → Supersedes st (some x)
      → Supersedes st (some y)
      → Supersedes st (some (if b then y else x))
  later_Supersedes x y true h k = k
  later_Supersedes x y false h k = h

  -- Among states that it supersedes, it is the latest.
  latest_from_lem :
      (xs : List ControllerState) (x : ControllerState)
      → Supersedes st (some x)
      → All (λ t. Supersedes st (some t)) xs
      → (x ≡ st) ⊎ Any (λ t. t ≡ st) xs
      → latest_from x xs ≡ st
  unfolding latest_from
  latest_from_lem [] x h k (inl e) = e
  latest_from_lem [] x h k (inr m) = absurd m
  latest_from_lem (y ∷ ys) x h k m =
      latest_from_lem ys (if is_before x y then y else x)
        (later_Supersedes x y (is_before x y) h k.0) k.1
        (elim m [
          | inl e ↦ inl (later_lem x y h k.0 (inl e))
          | inr n ↦ elim n [ inl e ↦ inl (later_lem x y h k.0 (inr e)) | inr n ↦ inr n ]
        ])

  latest_lem :
      (xs : List ControllerState)
      → All (λ t. Supersedes st (some t)) xs
      → Any (λ t. t ≡ st) xs
      → latest xs ≡ some st
  latest_lem [] h m = absurd m
  latest_lem (x ∷ xs) h m = ap some (latest_from_lem xs x h.0 h.1 m)

  all_valid :
      (xs : List ControllerState)
      → All (λ t. Supersedes st (some t)) xs
      → all is_valid_state xs ≡ true
  all_valid [] h = refl
  all_valid (x ∷ xs) h = rw (h.0.0) (all_valid xs h.1)

  -- The states in a list of events.
  All-with :
      (o : Option ControllerState) (rest : List ControllerState)
      → Supersedes st o
      → All (λ t. Supersedes st (some t)) rest
      → All (λ t. Supersedes st (some t)) (with_state o rest)
  All-with none rest h k = k
  All-with (some t) rest h k = (h, k)

  Any-with :
      (o : Option ControllerState) (rest : List ControllerState)
      → (o ≡ some st) ⊎ Any (λ t. t ≡ st) rest
      → Any (λ t. t ≡ st) (with_state o rest)
  Any-with none rest (inl e) = cc
  Any-with none rest (inr m) = m
  Any-with (some t) rest (inl e) = inl cc
  Any-with (some t) rest (inr m) = inr m

  All-collect :
      (es : List Event)
      → All (λ e. Supersedes st (state_of e.payload)) es
      → All (λ t. Supersedes st (some t)) (collect state_of es)
  unfolding collect
  All-collect [] h = tt
  All-collect (e ∷ es) h =
      All-with (state_of e.payload) (collect state_of es) h.0 (All-collect es h.1)

  Any-collect :
      (es : List Event)
      → Any (λ e. state_of e.payload ≡ some st) es
      → Any (λ t. t ≡ st) (collect state_of es)
  unfolding collect
  Any-collect [] h = absurd h
  Any-collect (e ∷ es) (inl h) = Any-with (state_of e.payload) (collect state_of es) (inl h)
  Any-collect (e ∷ es) (inr h) =
      Any-with (state_of e.payload) (collect state_of es) (inr (Any-collect es h))

  listed_All :
      (es : List Event)
      → All (IsOlder id st) es
      → All (λ e. Supersedes st (state_of e.payload)) (list_events id es)
  unfolding list_events
  listed_All es h =
      All-map (λ e o. o.0 ((eq_iff e.subject_ref id).0 o.1)) (list_events id es)
        (All-keep (IsOlder id st) (λ e. e.subject_ref == id) (sort_events es)
          (All-sort (IsOlder id st) es h))

  listed_Any :
      (es : List Event)
      → Any (IsRecord id st) es
      → Any (λ e. state_of e.payload ≡ some st) (list_events id es)
  unfolding list_events
  listed_Any es h =
      Any-map (λ e r. rw (r.1) refl) (list_events id es)
        (Any-keep (IsRecord id st) (λ e. e.subject_ref == id)
          (λ e r. (eq_iff e.subject_ref id).1 r.0) (sort_events es)
          (Any-sort (IsRecord id st) es h))

  -- The controller reads the current state back.
  pub get_lem : (s : Store) → IsCurrent id st s → get id s ≡ ok (some st)
  unfolding get recorded_states
  get_lem s h =
      let all = All-collect (list_events id s.events) (listed_All s.events h.newest) in
      let any = Any-collect (list_events id s.events) (listed_Any s.events h.recorded) in
      rw (all_valid _ all) (ap (λ x. ok x) (latest_lem _ all any))

  -- A valid state of a later version becomes the current one.
  module _ (env : Env) (next : ControllerState) where
    later_Some :
        (o : Option ControllerState)
        → st.version < next.version
        → Supersedes st o
        → Supersedes next o
    later_Some none v h = tt
    later_Some (some t) v h = (h.0, inr (elim h.1 [ inl e ↦ rw e v | inr m ↦ omega arith ]))

    superseded :
        (s : Store) → st.version < next.version → IsCurrent id st s → All (IsOlder id next) s.events
    superseded s v h = All-map (λ e o k. later_Some (state_of e.payload) v (o k)) s.events h.newest

    no_twin :
        (x e : Event) (s : Store)
        → find_event e.id s.events ≡ some x
        → e.subject_ref ≡ id
        → e.payload ≡ state_recorded next
        → st.version < next.version
        → IsCurrent id st s
        → same_event x e ≡ false
    no_twin x e s f i p l h = elim (Bool-cases (same_event x e)) [
      | inr k ↦ k
      | inl k ↦
          let older = find-All (IsOlder id st) e.id s.events x f h.newest in
          let twin = same_event-eq x e k in
          let same : x.payload ≡ state_recorded next = ap (λ (v : Event). v.payload) twin ∙ p in
          let here : Supersedes st (state_of x.payload) =
            older (ap (λ (v : Event). v.subject_ref) twin ∙ i) in
          let later : Supersedes st (some next) =
            subst (λ q. Supersedes st (state_of q)) same here in
          absurd (elim later.1 [
            | inl e ↦
                let m : next.version < next.version =
                  subst (λ (v : ControllerState). v.version < next.version) (sym e) l in
                omega arith
            | inr m ↦ omega arith
          ])
    ]

    recorded_beside :
        (x : Option Event) (e : Event) (s : Store)
        → find_event e.id s.events ≡ x
        → e.subject_ref ≡ id
        → e.payload ≡ state_recorded next
        → next.id ≡ id
        → is_valid_state next ≡ true
        → st.version < next.version
        → IsCurrent id st s
        → Post
            (λ _ s. IsCurrent id next s)
            (IsCurrent id st)
            (append_beside x e s).0
            (append_beside x e s).1
    recorded_beside none e s f i p n v l h = record {
      same_id = n;
      valid = v;
      recorded = Any-append_right (IsRecord id next) s.events (e ∷ []) (inl (i, p));
      newest =
          All-append (IsOlder id next) s.events (e ∷ []) (superseded s l h)
            (λ k. rw p (v, inl refl), tt);
    }
    recorded_beside (some x) e s f i p n v l h = rw (no_twin x e s f i p l h) h

    pub record_state-Triple :
        next.id ≡ id
        → is_valid_state next ≡ true
        → st.version < next.version
        → Triple
            (IsCurrent id st)
            (record_state env next)
            (λ _ s. IsCurrent id next s)
            (IsCurrent id st)
    unfolding record_state record_event append_event
    record_state-Triple n v l =
        bind _ _ _ (λ _. IsCurrent id st) _ _ (λ s h. IsCurrent-stable.draws s _ h)
          λ event_id.
            bind _ _ _ (λ _. IsCurrent id st) _ _ (λ s h. IsCurrent-stable.draws s _ h)
              λ now.
                bind _ _ _ (λ _. IsCurrent id next) _ _
                  (λ s h.
                    let e = new_event event_id now next.id (state_recorded next) in
                    recorded_beside (find_event event_id s.events) e s refl n refl n v l h)
                  λ _ s h. h
