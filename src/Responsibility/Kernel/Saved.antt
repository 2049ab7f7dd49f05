-- ===== src/Responsibility/Kernel/Saved.antt =====
-- What a saving operation answers with: the object that it was given, or an equal one that is there.
use portable_runtime.Base.{
  ℕ, String, ◌≡◌, refl, ap, ◌∙◌, sym, inl, inr, true, Bool-cases, Option, none, some,
}
use portable_runtime.Responsibility.Models.{
  ResponsibilityObject, standing, admission, revision, lifecycle, expectation, resolution,
  assessment, proposal, priority, pool, portfolio, reservation, release, commitment, WorkProposal,
}
use portable_runtime.Responsibility.Models.Equality.{ResponsibilityObject-discrete}
use portable_runtime.Journal.{
  Store, Env, Event, object_recorded, find_event, same_event, same_event-eq, new_event, decided,
  append_event, M, pure,
}
use portable_runtime.Journal.Logic.{Triple, after}
use portable_runtime.Responsibility.Kernel.Objects.{
  id_of, undated_object, subject_of, same_object, object_of_payload, get, save_beside, save,
  append_only_beside, save_append_only,
}
use portable_runtime.Responsibility.Kernel.Operations.{propose}

id_of_undated : (o : ResponsibilityObject) → id_of (undated_object o) ≡ id_of o
id_of_undated (standing o) = refl
id_of_undated (admission o) = refl
id_of_undated (revision o) = refl
id_of_undated (lifecycle o) = refl
id_of_undated (expectation o) = refl
id_of_undated (resolution o) = refl
id_of_undated (assessment o) = refl
id_of_undated (proposal o) = refl
id_of_undated (priority o) = refl
id_of_undated (pool o) = refl
id_of_undated (portfolio o) = refl
id_of_undated (reservation o) = refl
id_of_undated (release o) = refl
id_of_undated (commitment o) = refl

pub same_object-undated :
    (a b : ResponsibilityObject) → same_object a b ≡ true → undated_object a ≡ undated_object b
unfolding same_object
same_object-undated a b h =
    go (ResponsibilityObject-discrete (undated_object a) (undated_object b)) h
  where
    go :
        (d : Dec (undated_object a ≡ undated_object b))
        → decided d ≡ true
        → undated_object a ≡ undated_object b
    go (yes p) k = p
    go (no p) k = cc

same_object-id : (a b : ResponsibilityObject) → same_object a b ≡ true → id_of a ≡ id_of b
same_object-id a b h =
    sym (id_of_undated a) ∙ (ap id_of (same_object-undated a b h) ∙ id_of_undated b)

abbrev Anything : Store → Type 0
Anything s = Unit

-- The call returns an object of the identifier, if it returns.
abbrev pub ReturnsId : String → M ResponsibilityObject → Type 0
ReturnsId id m = Triple Anything m (λ v s. id_of v ≡ id) Anything

module _ (env : Env) where
  existing_id :
      (x e : Event) (o : ResponsibilityObject)
      → e.payload ≡ object_recorded o
      → same_event x e ≡ true
      → object_of_payload x.payload ≡ some o
  existing_id x e o h k =
      let same : x.payload ≡ object_recorded o =
        ap (λ (v : Event). v.payload) (same_event-eq x e k) ∙ h in
      rw same refl

  save_beside-id :
      (x : Option Event) (e : Event) (o : ResponsibilityObject)
      → e.payload ≡ object_recorded o
      → ReturnsId (id_of o) (save_beside env x e o)
  save_beside-id none e o h s _ =
      after Anything Anything (λ v s. id_of v ≡ id_of o) (append_event e) (λ _. pure o) (λ _ _. tt)
        (λ _ _. tt) (λ _ _ _. refl) s tt
  save_beside-id (some x) e o h s _ = elim (Bool-cases (same_event x e)) [
    | inl k ↦ rw (k, existing_id x e o h k) refl
    | inr k ↦ rw k tt
  ]

  save-id : (o : ResponsibilityObject) → ReturnsId (id_of o) (save env o)
  unfolding save
  save-id o =
      after _ _ _ _ _ (λ _ _. tt) (λ _ _. tt)
        λ now s _.
          save_beside-id (find_event (env.event_id (id_of o)) s.events)
            (new_event (env.event_id (id_of o)) now (subject_of o) (object_recorded o)) o refl s tt

  append_only-id :
      (x : Option ResponsibilityObject) (o : ResponsibilityObject)
      → ReturnsId (id_of o) (append_only_beside env x o)
  append_only-id none o s _ = save-id o s tt
  append_only-id (some x) o s _ = elim (Bool-cases (same_object x o)) [
    | inl k ↦ rw k (same_object-id x o k)
    | inr k ↦ rw k tt
  ]

  pub save_append_only-id :
      (o : ResponsibilityObject) → ReturnsId (id_of o) (save_append_only env o)
  unfolding save_append_only
  save_append_only-id o s _ = append_only-id (get env (id_of o) s) o s tt

  pub propose-id : (w : WorkProposal) (now : ℕ) → ReturnsId w.id (propose env w now)
  unfolding propose
  propose-id w now =
      after _ _ _ _ _ (λ _ _. tt) (λ _ _. tt)
        λ current.
          after _ _ _ _ _ (λ _ _. tt) (λ _ _. tt)
            λ status.
              after _ _ _ _ _ (λ _ _. tt) (λ _ _. tt)
                λ _.
                  after _ _ _ _ _ (λ _ _. tt) (λ _ _. tt)
                    λ _.
                      after _ _ _ _ _ (λ _ _. tt) (λ _ _. tt)
                        λ a.
                          after _ _ _ _ _ (λ _ _. tt) (λ _ _. tt)
                            λ _.
                              after _ _ _ _ _ (λ _ _. tt) (λ _ _. tt)
                                λ _.
                                  after _ _ _ _ _ (λ _ _. tt) (λ _ _. tt)
                                    λ _.
                                      after _ _ _ _ _ (λ _ _. tt) (λ _ _. tt)
                                        λ _. save_append_only-id (proposal w)
