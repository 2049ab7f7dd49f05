-- ===== src/Records/Revision/Applying.antt =====
-- What `apply_revision` has done when it returns.
use portable_runtime.Base.{
  ℕ, ◌+◌, String, ◌≡◌, refl, Bool, true, false, not, Option, none, some, ◌==◌, if◌then◌else◌, arith,
}
use portable_runtime.Base.Text.{CaseMapping}
use portable_runtime.Base.Dict.{put, put_self}
use portable_runtime.Base.Result.{Result, ok, err}
use portable_runtime.Base.Call.{
  pure_ok, after_get, after_raise_if, after_require, after_lift, after_call,
}
use portable_runtime.Authorization.Models.{AuthorizationGrant, AuthorizationUse, Request}
use portable_runtime.Authorization.Check.{create_authorization_use, UseError}
use portable_runtime.Records.Revision.Models.{
  RevisionRecord, Stored, revision, Store, WriteChecks, NumberTexts, save_record, stored_id,
}
use portable_runtime.Records.Revision.Operations.{
  advance, apply_targets, Instants, proof_holds, save_authorization_use, apply_stored,
  write_application, or_given, use_or_refuse, applied_copy, apply_request,
}

module _ (c : CaseMapping) (texts : NumberTexts) (checks : WriteChecks) where
  -- An application of the stored revision, from the store `s` to `s'`, under the grant with that id.
  pub record Applied (stored : RevisionRecord) (grant_id : Option String) (use_id : String)
      (at : Instants) (s : Store) (r : RevisionRecord) (s' : Store) : Type 0 where
    pub grant : AuthorizationGrant
    pub actor : String
    pub granted : s.authorizations (or_given grant_id "") ≡ some grant
    pub holds :
        proof_holds c texts checks grant stored actor at.validated_at at.authorized_at ≡ true
    pub same_id : r.id ≡ stored.id
    pub status : r.lifecycle_status ≡ "applied"
    pub advanced : r.version ≡ stored.version + 1
    pub names_grant : r.metadata.authorization_ref ≡ grant_id
    pub names_actor : r.metadata.actor_ref ≡ some actor
    pub names_use : r.metadata.authorization_use_ref ≡ some use_id
    pub saved : s'.records stored.id ≡ some (revision r)
    pub ends :
        (r.subject_ref ≡ stored.subject_ref)
        × (r.revises_ref ≡ stored.revises_ref)
        × (r.produces_ref ≡ stored.produces_ref)
        × (r.supersedes_ref ≡ stored.supersedes_ref)
    pub use_ : AuthorizationUse
    pub made :
        create_authorization_use c use_id grant
          (apply_request c texts checks stored actor)
          at.used_at
        ≡ ok use_
    pub used : s'.authorization_uses use_id ≡ some use_
    pub grants_kept : s'.authorizations ≡ s.authorizations

  pub is_true_of : {b : Bool} → not b ≡ false → b ≡ true
  is_true_of {b} h = ground arith

  use_or_refuse_ok :
      (res : Result UseError AuthorizationUse) (s s' : Store) (u : AuthorizationUse)
      → use_or_refuse res s ≡ (ok u, s')
      → (res ≡ ok u) × (s ≡ s')
  use_or_refuse_ok (ok v) s s' u h = ground arith
  use_or_refuse_ok (err e) s s' u h = cc

  created_id :
      (id : String) (g : AuthorizationGrant) (a : Request) (at : ℕ) (u : AuthorizationUse)
      → create_authorization_use c id g a at ≡ ok u
      → u.id ≡ id
  unfolding create_authorization_use
  created_id id g a at u h = ground arith

  pub save_record_ok :
      (v : Stored) (s s' : Store)
      → save_record checks v s ≡ (ok tt, s')
      → s' ≡ record s { records = put (stored_id v) v s.records }
  unfolding save_record
  save_record_ok v s s' h = ground arith

  save_use_ok :
      (u : AuthorizationUse) (s s' : Store)
      → save_authorization_use c texts checks u s ≡ (ok tt, s')
      → s' ≡ record s { authorization_uses = put u.id u s.authorization_uses }
  unfolding save_authorization_use
  save_use_ok u s s' h =
      let (grant, granted, h1) = after_require s s' tt _ _ _ (after_get s s' tt _ h) in
      let (passed, h2) = after_raise_if s s' tt _ _ _ h1 in ground arith

  advanced_to :
      (from_status status : String)
      → advance (apply_targets from_status) from_status ≡ ok status
      → status ≡ "applied"
  unfolding advance
  advanced_to from_status status h = ground arith

  -- The writes of an application, from the store `s` to `s'`.
  record Written (stored : RevisionRecord) (grant_id : Option String) (grant : AuthorizationGrant)
      (actor : String × Option String) (use_id : String) (used_at : ℕ) (s : Store)
      (r : RevisionRecord) (s' : Store) : Type 0 where
    status : String
    way : status ≡ "applied"
    copy : r ≡ applied_copy stored status grant_id actor use_id
    use_ : AuthorizationUse
    made :
        create_authorization_use c use_id grant
          (apply_request c texts checks stored actor.0)
          used_at
        ≡ ok use_
    stores : s' ≡ record s {
      authorization_uses = put use_id use_ s.authorization_uses;
      records = put stored.id (revision r) s.records;
    }

  joined_writes :
      (stored : RevisionRecord) (grant_id : Option String) (grant : AuthorizationGrant)
      (actor : String × Option String) (use_id : String) (used_at : ℕ) (s s1 s2 s3 s' : Store)
      (r : RevisionRecord) (u : AuthorizationUse) (status : String)
      → create_authorization_use c use_id grant
          (apply_request c texts checks stored actor.0)
          used_at
        ≡ ok u
      → u.id ≡ use_id
      → s ≡ s1
      → s2 ≡ record s1 { authorization_uses = put u.id u s1.authorization_uses }
      → status ≡ "applied"
      → s3 ≡ record s2 {
        records =
            put stored.id (revision (applied_copy stored status grant_id actor u.id)) s2.records;
      }
      → (r ≡ applied_copy stored status grant_id actor u.id) × (s' ≡ s3)
      → Written stored grant_id grant actor use_id used_at s r s'
  joined_writes stored grant_id grant actor use_id used_at s s1 s2 s3 s' r u status made e0 e1 e2
        way e3 (er, es) =
      record {
        status = status;
        way = way;
        copy = rw (er, e0) refl;
        use_ = u;
        made = made;
        stores = rw (es, e3, e2, ← e1, er, e0) refl;
      }

  write_application-Written :
      (stored : RevisionRecord) (grant_id : Option String) (grant : AuthorizationGrant)
      (actor : String × Option String) (use_id : String) (used_at : ℕ) (s s' : Store)
      (r : RevisionRecord)
      → write_application c texts checks stored grant_id grant actor use_id used_at s ≡ (ok r, s')
      → Written stored grant_id grant actor use_id used_at s r s'
  unfolding write_application
  write_application-Written stored grant_id grant actor use_id used_at s s' r h =
      let (u, s1, created, h1) = after_call _ _ s s' r h in
      let (_, s2, used, h2) = after_call _ _ s1 s' r h1 in
      let (status, way, h3) = after_lift s2 s' r _ _ h2 in
      let (_, s3, saved, h4) = after_call _ _ s2 s' r h3 in
      let (made, same) = use_or_refuse_ok _ s s1 u created in
      joined_writes stored grant_id grant actor use_id used_at s s1 s2 s3 s' r u status made
        (created_id use_id grant _ used_at u made) same (save_use_ok u s1 s2 used)
        (advanced_to stored.lifecycle_status status way) (save_record_ok _ s2 s3 saved)
        (pure_ok s3 s' r _ h4)

  use_kept :
      (stored : RevisionRecord) (use_id : String) (u : AuthorizationUse) (r : RevisionRecord)
      (s s' : Store)
      → s' ≡ record s {
        authorization_uses = put use_id u s.authorization_uses;
        records = put stored.id (revision r) s.records;
      }
      → s'.authorization_uses use_id ≡ some u
  use_kept stored use_id u r s s' e = rw e (put_self use_id u s.authorization_uses)

  given_grant :
      (id : String) (s : Store) (g : AuthorizationGrant)
      → (if id == "" then none else s.authorizations id) ≡ some g
      → s.authorizations id ≡ some g
  given_grant id s g h = ground arith

  pub apply_stored-Applied :
      (stored : RevisionRecord) (grant_id actor_ref resource_ref : Option String)
      (effect_class : String) (legacy : Option String) (use_id : String) (at : Instants)
      (s s' : Store) (r : RevisionRecord)
      → apply_stored c texts checks stored grant_id actor_ref resource_ref effect_class legacy
          use_id at s
        ≡ (ok r, s')
      → Applied stored grant_id use_id at s r s'
  unfolding apply_stored
  apply_stored-Applied stored grant_id actor_ref resource_ref effect_class legacy use_id at s s' r
        h =
      let (_, h1) = after_raise_if s s' r _ _ _ h in
      let (grant, granted, h2) = after_require s s' r _ _ _ (after_get s s' r _ h1) in
      let (actor, acts, h3) = after_require s s' r _ _ _ h2 in
      let (_, h4) = after_raise_if s s' r _ _ _ h3 in
      let (_, h5) = after_raise_if s s' r _ _ _ h4 in
      let (_, h6) = after_raise_if s s' r _ _ _ h5 in
      let (holds, h7) = after_raise_if s s' r _ _ _ h6 in
      let w = write_application-Written stored grant_id grant actor use_id at.used_at s s' r h7 in
      record {
        grant = grant;
        actor = actor.0;
        granted = given_grant (or_given grant_id "") s grant granted;
        holds = is_true_of holds;
        status = rw (w.copy, w.way) refl;
        same_id = rw w.copy refl;
        advanced = rw w.copy refl;
        names_grant = rw w.copy refl;
        names_actor = rw w.copy refl;
        names_use = rw w.copy refl;
        saved = rw w.stores (put_self stored.id (revision r) s.records);
        ends = rw w.copy (refl, refl, refl, refl);
        use_ = w.use_;
        made = w.made;
        used = use_kept stored use_id w.use_ r s s' w.stores;
        grants_kept = rw w.stores refl;
      }
