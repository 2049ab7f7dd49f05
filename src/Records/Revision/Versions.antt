-- ===== src/Records/Revision/Versions.antt =====
-- What a proof that holds shows of its grant, and the texts of the versions that it may name.
use portable_runtime.Base.{
  ℕ, String, ◌≡◌, refl, inl, inr, Bool, true, false, not, ◌&&◌, List, [], ◌∷◌, ◌==◌, elem, any,
  non_empty, arith, Bool-cases, eq_iff,
}
use portable_runtime.Base.Text.{CaseMapping}
use portable_runtime.Authorization.Models.{AuthorizationGrant}
use portable_runtime.Authorization.Check.{is_authorized_for, validate_grant}
use portable_runtime.Records.Revision.Models.{RevisionRecord, WriteChecks, NumberTexts}
use portable_runtime.Records.Revision.Operations.{
  proof_holds, apply_request, expected_versions, version_ref,
}
use portable_runtime.Base.{◌≢◌, sym, ◌∙◌}
use Prim.Native.String.{◌++◌}
use text.Mathlib.TextLemmas.{append_cancel_left, append-nil, cons-append, nil≢cons}

module _ (c : CaseMapping) (texts : NumberTexts) (checks : WriteChecks) where
  three :
      {A : Type 0} (vs : List A) (b d : Bool)
      → (not (non_empty vs) && b && d) ≡ true
      → (vs ≡ []) × (b ≡ true) × (d ≡ true)
  three [] b d h = ground arith
  three (_ ∷ _) b d h = cc

  -- What a proof that holds shows of the grant.
  pub proof_holds_lem :
      (grant : AuthorizationGrant) (r : RevisionRecord) (actor : String) (t u : ℕ)
      → proof_holds c texts checks grant r actor t u ≡ true
      → (validate_grant c grant t ≡ [])
        × (is_authorized_for c (apply_request c texts checks r actor) grant u ≡ true)
        × (any (λ v. elem v grant.subject_version_refs) (expected_versions c texts checks r) ≡ true)
  unfolding proof_holds
  proof_holds_lem grant r actor t u h =
      three (validate_grant c grant t)
        (is_authorized_for c (apply_request c texts checks r actor) grant u)
        (any (λ v. elem v grant.subject_version_refs) (expected_versions c texts checks r)) h

  differ : (x y : String) → x ≢ y → (x == y) ≡ false
  differ x y ne = elim (Bool-cases (x == y)) [ inl e ↦ absurd (ne ((eq_iff x y).0 e)) | inr e ↦ e ]

  colon : (t : String) → (":v" ++ t) ≢ ""
  colon t e = nil≢cons (sym e ∙ cons-append ":" "v" t)

  longer : (x y : String) → y ≢ "" → x ≢ x ++ y
  longer x y ne e = ne (sym (append_cancel_left x "" y (append-nil x ∙ e)))

  -- The text of a version is neither the id nor the text of another version.
  pub other_version :
      (r : RevisionRecord) (v : ℕ)
      → v ≢ r.version
      → any
          (λ x. elem x (version_ref c texts checks r.id v ∷ []))
          (expected_versions c texts checks r)
        ≡ false
  other_version r v ne =
      let first =
        differ r.id (version_ref c texts checks r.id v) (longer r.id _ (colon (texts.show v))) in
      let second =
        differ (version_ref c texts checks r.id r.version) (version_ref c texts checks r.id v) (λ e.
          ne (
            sym (
              texts.show-injective r.version v (
                append_cancel_left ":v" (texts.show r.version) (texts.show v)
                  (append_cancel_left r.id _ _ e))))) in
      rw (first, second) refl
