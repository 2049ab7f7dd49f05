-- ===== src/Records/Revision/Grants.antt =====
-- The grant behind an application.
use portable_runtime.Base.{
  ◌+◌, String, ◌≡◌, ◌⊎◌, inl, inr, true, false, Option, some, [], elem, any, arith, eq_iff, eqb_iff,
  opt_eq_iff, none,
}
use portable_runtime.Records.Revision.Versions.{proof_holds_lem}
use portable_runtime.Base.Text.{CaseMapping}
use portable_runtime.Base.Dict.{put, put_self}
use portable_runtime.Base.Result.{ok}
use portable_runtime.Authorization.Models.{AuthorizationGrant, AuthorizationUse, write_local}
use portable_runtime.Authorization.Check.{is_authorized_for, validate_grant}
use portable_runtime.Authorization.History.{created_use}
use portable_runtime.Records.Revision.Models.{
  RevisionRecord, Stored, revision, Store, WriteChecks, NumberTexts,
}
use portable_runtime.Records.Revision.Operations.{
  as_revision, same_endpoints, Instants, apply_request, apply_revision, or_given, expected_versions,
}
use portable_runtime.Base.{ap, subst, sym, ◌∙◌}
use portable_runtime.Records.Revision.Retry.{
  IsKeyed, IsMaterialized, IsMaterialized-IsKeyed, apply_revision-Outcome,
}

abbrev status_of : Option Stored → String
status_of (some (revision r)) = r.lifecycle_status
status_of _ = ""

module _ (c : CaseMapping) (texts : NumberTexts) (checks : WriteChecks) where
  -- The application of the revision under the grant with that id, from the store `s` to `s'`.
  pub record Granted (r : RevisionRecord) (grant_id : Option String) (use_id : String)
      (at : Instants) (s : Store) (out : RevisionRecord) (s' : Store) : Type 0 where
    pub stored : RevisionRecord
    pub source : (s.records r.id ≡ some (revision stored)) ⊎ (s.records r.id ≡ none) × (stored ≡ r)
    pub same_id : stored.id ≡ r.id
    pub same : same_endpoints stored r ≡ true
    pub grant : AuthorizationGrant
    pub actor : String
    pub granted : s.authorizations (or_given grant_id "") ≡ some grant
    pub valid : validate_grant c grant at.validated_at ≡ []
    pub authorized :
        is_authorized_for c (apply_request c texts checks stored actor) grant at.authorized_at
        ≡ true
    pub named :
        any (λ v. elem v grant.subject_version_refs) (expected_versions c texts checks stored)
        ≡ true
    pub out_id : out.id ≡ r.id
    pub ends :
        (out.subject_ref ≡ r.subject_ref)
        × (out.revises_ref ≡ r.revises_ref)
        × (out.produces_ref ≡ r.produces_ref)
        × (out.supersedes_ref ≡ r.supersedes_ref)
    pub applied : out.lifecycle_status ≡ "applied"
    pub advanced : out.version ≡ r.version + 1
    pub names_grant : out.metadata.authorization_ref ≡ grant_id
    pub names_actor : out.metadata.actor_ref ≡ some actor
    pub names_use : out.metadata.authorization_use_ref ≡ some use_id
    pub saved : s'.records r.id ≡ some (revision out)
    pub use_ : AuthorizationUse
    pub used : s'.authorization_uses use_id ≡ some use_
    pub recorded :
        (use_.authorization_ref ≡ grant.id)
        × (use_.capability ≡ "revision.apply")
        × (use_.actor_ref ≡ actor)
        × (use_.resource_ref ≡ r.subject_ref)
        × (use_.effect_class ≡ write_local)
        × (use_.subject_version_refs ≡ expected_versions c texts checks stored)
        × (use_.authorized_at ≡ at.used_at)

  -- The canonical revision is the one of the store, or the proposal at hand.
  source_of :
      (r stored : RevisionRecord) (s t : Store)
      → IsMaterialized c texts checks r s t
      → t.records r.id ≡ some (revision stored)
      → (s.records r.id ≡ some (revision stored)) ⊎ (s.records r.id ≡ none) × (stored ≡ r)
  source_of r stored s t (inl e) found =
      inl (subst (λ u. u.records r.id ≡ some (revision stored)) e found)
  source_of r stored s t (inr (new, _, e)) found =
      let put_here : some (revision r) ≡ some (revision stored) =
        sym (put_self r.id (revision r) s.records)
        ∙ subst (λ u. u.records r.id ≡ some (revision stored)) e found in
      let same : as_revision (some (revision r)) ≡ as_revision (some (revision stored)) =
        ap as_revision put_here in
      inr (new, cc same)

  -- The fields that two revisions of the same endpoints share.
  same_endpoints-eq :
      (a b : RevisionRecord)
      → same_endpoints a b ≡ true
      → (a.version ≡ b.version)
        × (a.subject_ref ≡ b.subject_ref)
        × (a.revises_ref ≡ b.revises_ref)
        × (a.produces_ref ≡ b.produces_ref)
        × (a.supersedes_ref ≡ b.supersedes_ref)
  unfolding same_endpoints
  same_endpoints-eq a b h = ground (
    arith,
    eqb_iff a.version b.version,
    eq_iff a.subject_ref b.subject_ref,
    opt_eq_iff a.revises_ref b.revises_ref,
    opt_eq_iff a.produces_ref b.produces_ref,
    opt_eq_iff a.supersedes_ref b.supersedes_ref,
  )

  materialized_grants :
      (r : RevisionRecord) (s t : Store) (id : String) {g : AuthorizationGrant}
      → IsMaterialized c texts checks r s t
      → t.authorizations id ≡ some g
      → s.authorizations id ≡ some g
  materialized_grants r s t id {g} (inl e) h = subst (λ u. u.authorizations id ≡ some g) e h
  materialized_grants r s t id {g} (inr (_, _, e)) h = subst (λ u. u.authorizations id ≡ some g) e h

  not_applied : (a b : String) → a ≡ b → a ≡ "proposed" → b ≡ "applied" → ⊥
  not_applied a b e p q =
      let differ : false ≡ true = (eq_iff "proposed" "applied").1 (sym p ∙ (e ∙ q)) in cc

  materialized_status :
      (r stored : RevisionRecord) (s t : Store)
      → t ≡ record s { records = put r.id (revision r) s.records }
      → t.records r.id ≡ some (revision stored)
      → r.lifecycle_status ≡ stored.lifecycle_status
  materialized_status r stored s t e h = ap status_of (
      sym (put_self r.id (revision r) s.records)
      ∙ subst (λ u. u.records r.id ≡ some (revision stored)) e h)

  pub unchanged :
      (r : RevisionRecord) (s t : Store) (stored out : RevisionRecord) (s' : Store)
      → IsMaterialized c texts checks r s t
      → t.records r.id ≡ some (revision stored)
      → stored.lifecycle_status ≡ "applied"
      → out ≡ stored
      → s' ≡ t
      → (s.records r.id ≡ some (revision out)) × (out.lifecycle_status ≡ "applied") × (s' ≡ s)
  unchanged r s t stored out s' (inl e) found applied same kept = (
    rw same (subst (λ u. u.records r.id ≡ some (revision stored)) e found),
    rw same applied,
    kept ∙ e,
  )
  unchanged r s t stored out s' (inr (_, proposed, e)) found applied same kept = absurd (
      not_applied r.lifecycle_status stored.lifecycle_status
        (materialized_status r stored s t e found) proposed applied)

  -- From a store that keeps its revisions under their ids, if a revision is applied, the store holds it
  -- as applied already, and then nothing changes; or the canonical revision is the one that the store
  -- has under that id, or the given one where it has none, with the same endpoints and version. The
  -- given grant is then in the store, has no error at the instant of its validation, authorizes the
  -- application of that revision and version to the actor at the instant of the authorization, and
  -- names the revision or its version; and the revision is saved under its id as applied in the next
  -- version, with its endpoints, the grant, the actor and a recorded use, which is of that grant, by
  -- that actor, for that application at the instant of the use.
  pub apply_revision-IsGranted :
      (r : RevisionRecord) (grant_id actor_ref resource_ref : Option String) (effect_class : String)
      (legacy : Option String) (use_id : String) (at : Instants) (s s' : Store)
      (out : RevisionRecord)
      → IsKeyed s
      → apply_revision c texts checks r grant_id actor_ref resource_ref effect_class legacy use_id
          at s
        ≡ (ok out, s')
      → (s.records r.id ≡ some (revision out)) × (out.lifecycle_status ≡ "applied") × (s' ≡ s)
        ⊎ Granted r grant_id use_id at s out s'
  apply_revision-IsGranted r grant_id actor_ref resource_ref effect_class legacy use_id at s s' out
        keyed h =
      let o =
        apply_revision-Outcome c texts checks r grant_id actor_ref resource_ref effect_class legacy
          use_id at s s' out h in
      elim o.result [
        | inl (applied, is_stored, kept) ↦
            inl
              (unchanged r s o.t o.stored out s' o.materialized o.canonical applied is_stored kept)
        | inr a ↦
            let (valid, authorized, named) =
              proof_holds_lem c texts checks a.grant o.stored a.actor at.validated_at
                at.authorized_at a.holds in
            let id =
              IsMaterialized-IsKeyed c texts checks r s o.t o.materialized keyed r.id o.stored
                o.canonical in
            let (version, subject, revises, produces, supersedes) =
              same_endpoints-eq o.stored r o.same in
            let (_, ref, cap, by, resource, effect, versions, when) =
              created_use c use_id a.grant (apply_request c texts checks o.stored a.actor)
                at.used_at a.use_ a.made in
            inr (record {
              stored = o.stored;
              source = source_of r o.stored s o.t o.materialized o.canonical;
              same_id = id;
              same = o.same;
              grant = a.grant;
              actor = a.actor;
              granted = materialized_grants r s o.t (or_given grant_id "") o.materialized a.granted;
              valid = valid;
              authorized = authorized;
              named = named;
              out_id = a.same_id ∙ id;
              ends = (
                a.ends.0 ∙ subject,
                a.ends.1 ∙ revises,
                a.ends.2 ∙ produces,
                a.ends.3 ∙ supersedes,
              );
              applied = a.status;
              advanced = a.advanced ∙ ap (λ n. n + 1) version;
              names_grant = a.names_grant;
              names_actor = a.names_actor;
              names_use = a.names_use;
              saved = subst (λ k. s'.records k ≡ some (revision out)) id a.saved;
              use_ = a.use_;
              used = a.used;
              recorded = (ref, cap, by, resource ∙ subject, effect, versions, when);
            })
      ]
