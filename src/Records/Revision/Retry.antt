-- ===== src/Records/Revision/Retry.antt =====
-- `apply_revision` as a whole: what it changes, and that a second call finds the same.
use portable_runtime.Base.{
  String, ◌≡◌, refl, ◌⊎◌, inl, inr, Bool, true, false, not, ◌&&◌, Option, none, some, is_some, ◌==◌,
  if◌then◌else◌, opt_eq_iff, eqb_iff, arith, eq_iff, eq_refl,
}
use portable_runtime.Base.Text.{CaseMapping}
use portable_runtime.Base.Dict.{put}
use portable_runtime.Base.Result.{Result, ok, err}
use portable_runtime.Base.Call.{
  pure_ok, after_get, after_raise_if, after_require, after_call, ◌>>=◌,
}
use portable_runtime.Records.Revision.Models.{
  RevisionRecord, Stored, revision, plain, Store, Error, endpoints_required, WriteChecks,
  NumberTexts, save_record, stored_id,
}
use portable_runtime.Records.Revision.Operations.{
  as_revision, find_ref, same_type, same_endpoints, Instants, materialize, apply_revision,
}
use portable_runtime.Base.{ap, subst, sym, ◌∙◌}
use portable_runtime.Records.Revision.Applying.{
  Applied, apply_stored-Applied, save_record_ok, is_true_of,
}

-- Every revision stands in the store under its id.
abbrev pub IsKeyed : Store → Type 0
IsKeyed s = (k : String) (v : RevisionRecord) → s.records k ≡ some (revision v) → v.id ≡ k

stored_revision :
    (o : Option Stored) (r : RevisionRecord) → as_revision o ≡ some r → o ≡ some (revision r)
stored_revision none r h = cc
stored_revision (some (plain p)) r h = cc
stored_revision (some (revision q)) r h = ground arith

abbrev id_of : Option Stored → String
id_of none = ""
id_of (some v) = stored_id v

pub split_if :
    {A : Type 0} (b : Bool) (x y z : A)
    → (if b then x else y) ≡ z
    → (b ≡ true) × (x ≡ z) ⊎ (b ≡ false) × (y ≡ z)
split_if true x y z h = inl (refl, h)
split_if false x y z h = inr (refl, h)

module _ (c : CaseMapping) (texts : NumberTexts) (checks : WriteChecks) where
  -- The store before the tests: a proposal that it did not have has been saved.
  abbrev pub IsMaterialized : RevisionRecord → Store → Store → Type 0
  IsMaterialized r s t =
      (t ≡ s)
      ⊎ (s.records r.id ≡ none)
        × (r.lifecycle_status ≡ "proposed")
        × (t ≡ record s { records = put r.id (revision r) s.records })

  -- The tests of the materialization, on their outcomes.
  materialized :
      (known proposed fits : Bool) (m : Result Error Unit × Store) (s t : Store)
      → (if not known && proposed
          then if fits then m else (err endpoints_required, s)
          else (ok tt, s))
        ≡ (ok tt, t)
      → (t ≡ s) ⊎ (known ≡ false) × (proposed ≡ true) × (m ≡ (ok tt, t))
  materialized true proposed fits m s t h = inl (ground arith)
  materialized false false fits m s t h = inl (ground arith)
  materialized false true true m s t h = inr (refl, refl, h)
  materialized false true false m s t h = cc

  not_some : {A : Type 0} (o : Option A) → is_some o ≡ false → o ≡ none
  not_some none h = refl
  not_some (some a) h = cc

  materialize_ok :
      (r : RevisionRecord) (s t : Store)
      → materialize c texts checks r s ≡ (ok tt, t)
      → IsMaterialized r s t
  unfolding materialize
  materialize_ok r s t h =
      elim (materialized (is_some (s.records r.id)) (r.lifecycle_status == "proposed")
        (same_type (find_ref s r.revises_ref) (find_ref s r.produces_ref))
        (save_record checks (revision r) s) s t h) [
          | inl same ↦ inl same
          | inr (new, proposed, saved) ↦ inr (
            not_some (s.records r.id) new,
            (eq_iff r.lifecycle_status "proposed").0 proposed,
            save_record_ok c texts checks (revision r) s t saved,
          )
        ]

  put_keyed :
      (r v : RevisionRecord) (k : String) (b : Bool) (o : Option Stored)
      → (b ≡ true → r.id ≡ k)
      → (o ≡ some (revision v) → v.id ≡ k)
      → (if b then some (revision r) else o) ≡ some (revision v)
      → v.id ≡ k
  put_keyed r v k true o f g h = ap id_of (sym h) ∙ f refl
  put_keyed r v k false o f g h = g h

  pub IsMaterialized-IsKeyed :
      (r : RevisionRecord) (s t : Store) → IsMaterialized r s t → IsKeyed s → IsKeyed t
  IsMaterialized-IsKeyed r s t (inl e) keyed = rw e keyed
  IsMaterialized-IsKeyed r s t (inr (_, _, e)) keyed =
      rw e (λ k v h. put_keyed r v k (r.id == k) (s.records k) ((eq_iff r.id k).0) (keyed k v) h)

  -- What the call has passed: the canonical revision in the materialized store, and then either its
  -- status is applied and it is returned, or it is applied now.
  pub record Outcome (r : RevisionRecord) (grant_id : Option String) (use_id : String)
      (at : Instants) (s : Store) (out : RevisionRecord) (s' : Store) : Type 0 where
    pub t : Store
    pub materialized : IsMaterialized r s t
    pub stored : RevisionRecord
    pub canonical : t.records r.id ≡ some (revision stored)
    pub same : same_endpoints stored r ≡ true
    pub result :
        (stored.lifecycle_status ≡ "applied") × (out ≡ stored) × (s' ≡ t)
        ⊎ Applied c texts checks stored grant_id use_id at t out s'

  pub apply_revision-Outcome :
      (r : RevisionRecord) (grant_id actor_ref resource_ref : Option String) (effect_class : String)
      (legacy : Option String) (use_id : String) (at : Instants) (s s' : Store)
      (out : RevisionRecord)
      → apply_revision c texts checks r grant_id actor_ref resource_ref effect_class legacy use_id
          at s
        ≡ (ok out, s')
      → Outcome r grant_id use_id at s out s'
  unfolding apply_revision
  apply_revision-Outcome r grant_id actor_ref resource_ref effect_class legacy use_id at s s' out
        h =
      let (_, t, saved, h1) = after_call _ _ s s' out h in
      let (stored, found, h2) = after_require t s' out _ _ _ (after_get t s' out _ h1) in
      let (same, h3) = after_raise_if t s' out _ _ _ h2 in
      record {
        t = t;
        materialized = materialize_ok r s t saved;
        stored = stored;
        canonical = stored_revision (t.records r.id) stored found;
        same = is_true_of c texts checks same;
        result = elim (split_if (stored.lifecycle_status == "applied") _ _ _ h3) [
          | inl (e, k) ↦
              let (o, w) = pure_ok t s' out stored k in
              inl ((eq_iff stored.lifecycle_status "applied").0 e, o, w)
          | inr (e, k) ↦ inr (
              apply_stored-Applied c texts checks stored grant_id actor_ref resource_ref
                effect_class legacy use_id at t s' out k)
        ];
      }

  same_self : (r : RevisionRecord) → same_endpoints r r ≡ true
  unfolding same_endpoints
  same_self r =
      rw
        (
          (eqb_iff r.version r.version).1 refl,
          eq_refl r.subject_ref,
          (opt_eq_iff r.revises_ref r.revises_ref).1 refl,
          (opt_eq_iff r.produces_ref r.produces_ref).1 refl,
          (opt_eq_iff r.supersedes_ref r.supersedes_ref).1 refl,
        )
        refl

  -- A revision that the store holds as applied is returned, and nothing changes.
  retried :
      (r : RevisionRecord) (grant_id actor_ref resource_ref : Option String) (effect_class : String)
      (legacy : Option String) (use_id : String) (at : Instants) (s : Store)
      → s.records r.id ≡ some (revision r)
      → r.lifecycle_status ≡ "applied"
      → apply_revision c texts checks r grant_id actor_ref resource_ref effect_class legacy use_id
          at s
        ≡ (ok r, s)
  unfolding apply_revision materialize ◌>>=◌
  retried r grant_id actor_ref resource_ref effect_class legacy use_id at s held applied =
      rw (held, held, same_self r, applied) refl

  held :
      (r : RevisionRecord) (s' t : Store) {s : Store} (stored out : RevisionRecord)
      → IsMaterialized r s t
      → IsKeyed s
      → t.records r.id ≡ some (revision stored)
      → out ≡ stored
      → s' ≡ t
      → s'.records out.id ≡ some (revision out)
  held r s' t {s} stored out m keyed found same kept =
      let id = IsMaterialized-IsKeyed r s t m keyed r.id stored found in
      rw (kept, same) (subst (λ k. t.records k ≡ some (revision stored)) (sym id) found)

  -- Once a revision has been applied, from a store that keeps its revisions under their ids, each
  -- further call with it returns it again and changes nothing, whatever grant, actor, resource, use
  -- and instants are given.
  pub apply_revision_again :
      (r : RevisionRecord) (grant_id actor_ref resource_ref : Option String) (effect_class : String)
      (legacy : Option String) (use_id : String) (at : Instants) (s s' : Store)
      (out : RevisionRecord) (grant_id' actor_ref' resource_ref' : Option String)
      (effect_class' : String) (legacy' : Option String) (use_id' : String) (at' : Instants)
      → IsKeyed s
      → apply_revision c texts checks r grant_id actor_ref resource_ref effect_class legacy use_id
          at s
        ≡ (ok out, s')
      → apply_revision c texts checks out grant_id' actor_ref' resource_ref' effect_class' legacy'
          use_id' at' s'
        ≡ (ok out, s')
  apply_revision_again r grant_id actor_ref resource_ref effect_class legacy use_id at s s' out
        grant_id' actor_ref' resource_ref' effect_class' legacy' use_id' at' keyed h =
      let o =
        apply_revision-Outcome r grant_id actor_ref resource_ref effect_class legacy use_id at s s'
          out h in
      elim o.result [
        | inl (applied, same, kept) ↦
            retried out grant_id' actor_ref' resource_ref' effect_class' legacy' use_id' at' s'
              (held r s' o.t o.stored out o.materialized keyed o.canonical same kept)
              (rw same applied)
        | inr a ↦
            retried out grant_id' actor_ref' resource_ref' effect_class' legacy' use_id' at' s'
              (subst (λ k. s'.records k ≡ some (revision out)) (sym a.same_id) a.saved) a.status
      ]
