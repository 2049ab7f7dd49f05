-- ===== src/Records/Revision/Proof.antt =====
-- What a supersession has passed, and that an exact grant does not outlast its own application.
use portable_runtime.Base.{
  String, ◌≡◌, true, false, not, ◌||◌, Option, some, [], ◌∷◌, opt_eq, opt_eq_iff, elem, arith,
}
use portable_runtime.Base.Text.{CaseMapping}
use portable_runtime.Base.Result.{ok}
use portable_runtime.Base.Call.{pure_ok, after_get, after_raise_if, after_require, after_lift}
use portable_runtime.Authorization.Models.{AuthorizationGrant, AuthorizationUse}
use portable_runtime.Records.Revision.Models.{RevisionRecord, Store, WriteChecks, NumberTexts}
use portable_runtime.Records.Revision.Operations.{as_revision, proof_holds}
use portable_runtime.Base.{subst, sym}
use portable_runtime.Records.Revision.Applying.{is_true_of}
use portable_runtime.Records.Revision.Supersede.{
  RevisionArgument, argument_ref, canonical_revision, lookup_text, non_empty_text, require_proof,
}

module _ (c : CaseMapping) (texts : NumberTexts) (checks : WriteChecks) where
  -- The proof behind a supersession, in the store `s`.
  pub record Proven (argument : RevisionArgument) (old_id new_id : String) (s : Store)
      (r : RevisionRecord) : Type 0 where
    pub chosen :
        canonical_revision argument (as_revision (lookup_text s.records (argument_ref argument)))
        ≡ ok r
    pub status : elem r.lifecycle_status ("applied" ∷ "verified" ∷ "accepted" ∷ []) ≡ true
    pub auth_ref : String
    pub names_grant : non_empty_text r.metadata.authorization_ref ≡ some auth_ref
    pub grant : AuthorizationGrant
    pub granted : s.authorizations auth_ref ≡ some grant
    pub actor : String
    pub use_ : AuthorizationUse
    pub holds :
        proof_holds c texts checks grant r actor use_.authorized_at use_.authorized_at ≡ true
    pub revises : r.revises_ref ≡ some old_id
    pub produces : r.produces_ref ≡ some new_id

  same_ends :
      (a b d a' b' d' : Option String)
      → (not (opt_eq a a') || not (opt_eq b b') || not (opt_eq d d')) ≡ false
      → (a ≡ a') × (b ≡ b') × (d ≡ d')
  same_ends a b d a' b' d' h = ground (arith, opt_eq_iff a a', opt_eq_iff b b', opt_eq_iff d d')

  pub require_proof-Proven :
      (argument : RevisionArgument) (old_id new_id : String) (s s' : Store) (r : RevisionRecord)
      → require_proof c texts checks argument old_id new_id s ≡ (ok r, s')
      → Proven argument old_id new_id s r × (s' ≡ s)
  unfolding require_proof
  require_proof-Proven argument old_id new_id s s' r h =
      let (q, chosen, h1) = after_lift s s' r _ _ (after_get s s' r _ h) in
      let (status, h2) = after_raise_if s s' r _ _ _ h1 in
      let (auth_ref, named, h3) = after_require s s' r _ _ _ h2 in
      let (grant, granted, h4) = after_require s s' r _ _ _ h3 in
      let (actor, acts, h5) = after_require s s' r _ _ _ h4 in
      let (use_, used, h6) = after_require s s' r _ _ _ h5 in
      let (holds, h7) = after_raise_if s s' r _ _ _ h6 in
      let (ends, h8) = after_raise_if s s' r _ _ _ h7 in
      let (er, es) = pure_ok s s' r q h8 in
      let (revises, produces, _) =
        same_ends q.revises_ref q.produces_ref q.supersedes_ref _ _ _ ends in
      (
        subst (λ x. Proven argument old_id new_id s x) (sym er)
            (record {
              chosen = chosen;
              status = is_true_of c texts checks status;
              auth_ref = auth_ref;
              names_grant = named;
              grant = grant;
              granted = granted;
              actor = actor;
              use_ = use_;
              holds = is_true_of c texts checks holds;
              revises = revises;
              produces = produces;
            }),
        es,
      )
