-- ===== src/Controller/Stable.antt =====
-- Calls that record no controller state.
use portable_runtime.Base.{
  ℕ, String, ◌≡◌, refl, inl, inr, Bool-cases, Option, none, some, [], ◌∷◌, ◌++◌,
}
use portable_runtime.Base.Dict.{Dict}
use portable_runtime.Controller.Recording.{state_of}
use portable_runtime.Journal.{
  Store, Env, Event, Work, Payload, find_event, same_event, M, record_event, append_event,
  append_beside, new_event, object_recorded, pure, raise,
}
use portable_runtime.Journal.Errors.{object_append_only}
use portable_runtime.Journal.Logic.{Keeps, bind-Keeps}
use portable_runtime.Responsibility.Models.{ResponsibilityObject, WorkProposal, proposal}
use portable_runtime.Responsibility.Kernel.Objects.{
  id_of, subject_of, same_object, object_of_payload, get, save, save_beside, save_append_only,
  append_only_beside,
}
use portable_runtime.Responsibility.Kernel.Operations.{propose}

-- What no clock reading, no work record and no event but that of a controller state can end.
pub record IsStable (P : Store → Type 0) : Type 0 where
  pub draws : (s : Store) (n : ℕ) → P s → P (record s { draws = n })
  pub works : (s : Store) (w : Dict Work) → P s → P (record s { works = w })
  pub events :
      (s : Store) (e : Event)
      → state_of e.payload ≡ none
      → P s
      → P (record s { events = s.events ++ e ∷ [] })

abbrev kept_value : Option ResponsibilityObject → M ResponsibilityObject
kept_value o = elim o [ none ↦ raise object_append_only | some y ↦ pure y ]

kept_object :
    (P : Store → Type 0) (o : Option ResponsibilityObject) (s : Store) → P s → P (kept_value o s).1
kept_object P none s p = p
kept_object P (some y) s p = p

pub with_fact : (P : Store → Type 0) (F : Type 0) → IsStable P → IsStable (λ s. P s × F)
with_fact P F h = record {
  draws = λ s n p. (h.draws s n p.0, p.1);
  works = λ s w p. (h.works s w p.0, p.1);
  events = λ s e k p. (h.events s e k p.0, p.1);
}

module _ {P : Store → Type 0} (stable : IsStable P) where
  append_beside-Keeps :
      (x : Option Event) (e : Event) → state_of e.payload ≡ none → Keeps P (append_beside x e)
  append_beside-Keeps none e h s p = stable.events s e h p
  append_beside-Keeps (some x) e h s p = p

  pub append_event-Keeps : (e : Event) → state_of e.payload ≡ none → Keeps P (append_event e)
  unfolding append_event
  append_event-Keeps e h s p = append_beside-Keeps (find_event e.id s.events) e h s p

  pub record_event-Keeps :
      (env : Env) (subject : String) (payload : Payload)
      → state_of payload ≡ none
      → Keeps P (record_event env subject payload)
  unfolding record_event
  record_event-Keeps env subject payload h =
      bind-Keeps P _ _ (λ s p. stable.draws s _ p)
        λ id.
          bind-Keeps P _ _ (λ s p. stable.draws s _ p)
            λ now.
              bind-Keeps P _ _ (append_event-Keeps (new_event id now subject payload) h) λ _ s p. p

  -- The responsibility kernel records objects of its own only.
  save_beside-Keeps :
      (x : Option Event) (e : Event) (o : ResponsibilityObject)
      → state_of e.payload ≡ none
      → (env : Env) → Keeps P (save_beside env x e o)
  save_beside-Keeps none e o h env s p = bind-Keeps P _ _ (append_event-Keeps e h) (λ _ s p. p) s p
  save_beside-Keeps (some x) e o h env s p = elim (Bool-cases (same_event x e)) [
    | inl same ↦ rw same (kept_object P (object_of_payload x.payload) s p)
    | inr other ↦ rw other p
  ]

  save-Keeps : (env : Env) (o : ResponsibilityObject) → Keeps P (save env o)
  unfolding save
  save-Keeps env o =
      bind-Keeps P _ _ (λ s p. stable.draws s _ p)
        λ now s p.
          save_beside-Keeps (find_event (env.event_id (id_of o)) s.events)
            (new_event (env.event_id (id_of o)) now (subject_of o) (object_recorded o)) o refl env s
            p

  append_only-Keeps :
      (env : Env) (x : Option ResponsibilityObject) (o : ResponsibilityObject)
      → Keeps P (append_only_beside env x o)
  append_only-Keeps env none o s p = save-Keeps env o s p
  append_only-Keeps env (some x) o s p = elim (Bool-cases (same_object x o)) [
    | inl same ↦ rw same p
    | inr other ↦ rw other p
  ]

  save_append_only-Keeps : (env : Env) (o : ResponsibilityObject) → Keeps P (save_append_only env o)
  unfolding save_append_only
  save_append_only-Keeps env o s p = append_only-Keeps env (get env (id_of o) s) o s p

  pub propose-Keeps : (env : Env) (w : WorkProposal) (now : ℕ) → Keeps P (propose env w now)
  unfolding propose
  propose-Keeps env w now =
      bind-Keeps P _ _ (λ s p. p)
        λ current.
          bind-Keeps P _ _ (λ s p. p)
            λ status.
              bind-Keeps P _ _ (λ s p. p)
                λ _.
                  bind-Keeps P _ _ (λ s p. p)
                    λ _.
                      bind-Keeps P _ _ (λ s p. p)
                        λ a.
                          bind-Keeps P _ _ (λ s p. p)
                            λ _.
                              bind-Keeps P _ _ (λ s p. p)
                                λ _.
                                  bind-Keeps P _ _ (λ s p. p)
                                    λ _.
                                      bind-Keeps P _ _ (λ s p. p)
                                        λ _. save_append_only-Keeps env (proposal w)
