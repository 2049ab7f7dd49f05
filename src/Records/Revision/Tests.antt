-- ===== src/Records/Revision/Tests.antt =====
-- The theorems on revisions at a concrete store.
use text.Mathlib.TextLemmas.{nil≢cons}
use portable_runtime.Base.{
  sym, ◌∙◌, ℕ, zero, suc, String, ◌≡◌, refl, ap, ◌⊎◌, true, false, Bool, Option, none, some, List,
  [], ◌∷◌, if◌then◌else◌, ◌==◌, eq_iff,
}
use portable_runtime.Base.Text.{CaseMapping, is_blank, drop_suffix}
use portable_runtime.Base.Call.{◌>>=◌}
use portable_runtime.Base.Dict.{put}
use portable_runtime.Base.Result.{Result, ok, err}
use portable_runtime.Authorization.Models.{
  AuthorizationGrant, AuthorizationUse, write_local, effect_text,
}
use portable_runtime.Authorization.Match.{
  effect_order, norm_cap, capability_matches, resource_matches, effect_level, effect_allows,
  conditions_satisfied,
}
use portable_runtime.Authorization.Check.{
  is_authorized_for, validate_grant, create_authorization_use,
}
use portable_runtime.Records.Lifecycle.{
  lifecycle_machine, machine_allows, is_valid_lifecycle_transition,
}
use portable_runtime.Records.Revision.Models.{
  RevisionRecord, Stored, revision, plain, stored_id, Store, WriteChecks, NumberTexts,
  RecordRelation, Error, save_record, save_relation, refs_must_differ,
}
use portable_runtime.Records.Revision.Operations.{
  create_revision, Instants, no_metadata, apply_revision, same_endpoints, actual_actor, advance,
  proof_holds, version_ref,
}
use portable_runtime.Records.Revision.Supersede.{
  by_record, supersede, canonical_revision, supersede_old, promote_new, write_supersession,
  require_proof,
}
use portable_runtime.Records.Revision.Retry.{IsKeyed, apply_revision_again}
use portable_runtime.Records.Revision.Grants.{Granted, apply_revision-IsGranted}
use portable_runtime.Records.Revision.Superseding.{HasIds}
use portable_runtime.Records.Revision.Atomic.{Answers, supersede-Answers}

-- Numbers in unary, a mapping without capitals, and a store that accepts every write.
abbrev unary : ℕ → String
unary zero = ""
unary (suc n) = String.◌∷◌ "1" (unary n)

rest_of : String → String
rest_of String.[] = ""
rest_of (String.◌∷◌ c s) = s

unary-injective : (m n : ℕ) → unary m ≡ unary n → m ≡ n
unfolding rest_of
unary-injective zero zero h = refl
unary-injective zero (suc n) h = absurd (nil≢cons h)
unary-injective (suc m) zero h = absurd (nil≢cons (sym h))
unary-injective (suc m) (suc n) h = ap suc (unary-injective m n (ap rest_of h))

abbrev texts : NumberTexts
texts = record { show = unary; show-injective = unary-injective }

abbrev caseless : CaseMapping
caseless = record { lower = λ s. s; lower_plain = λ s h. refl }

abbrev checks : WriteChecks
checks = record {
  accepts_record = λ s v. true;
  accepts_use = λ s u. true;
  accepts_relation = λ s r. true;
}

abbrev draft : String → Stored
draft id =
    plain (record { id = id; record_type = "Assertion"; lifecycle_status = "draft"; version = 1 })

abbrev proposal : RevisionRecord
proposal = record {
  id = "rev";
  lifecycle_status = "proposed";
  version = 1;
  subject_ref = "old";
  revises_ref = some "old";
  produces_ref = some "new";
  supersedes_ref = some "old";
  created_by = "system";
  metadata = no_metadata;
}

abbrev grant : List String → AuthorizationGrant
grant versions = record {
  id = "grant";
  principal_ref = "owner";
  grantee_ref = "agent";
  allowed_capabilities = "revision.apply" ∷ [];
  resource_scope = [];
  effect_ceiling = some "write-local";
  valid_from = 10;
  expires_at = some 100;
  conditions = [];
  typed_conditions = [];
  revocable = true;
  revoked_at = none;
  source_decision_ref = none;
  subject_version_refs = versions;
}

abbrev store : List String → Store
store versions = record {
  records = λ k.
      if k == "old" then some (draft "old") else if k == "new" then some (draft "new") else none;
  authorizations = λ k. if k == "grant" then some (grant versions) else none;
  authorization_uses = λ k. none;
  relations = λ k. none;
}

abbrev at : Instants
at = record { validated_at = 20; authorized_at = 20; used_at = 20 }

proposed_so : create_revision "rev" "old" "new" none "system" "proposed" ≡ ok proposal
unfolding create_revision
proposed_so = refl

self_revision_refused :
    create_revision "rev" "old" "old" none "system" "proposed" ≡ err refs_must_differ
unfolding create_revision
self_revision_refused = refl

-- The proposal as it is applied under the grant.
abbrev applied : RevisionRecord
applied = record proposal {
  lifecycle_status = "applied";
  version = 2;
  metadata = record {
    authorization_ref = some "grant";
    actor_ref = some "agent";
    resource_ref = some "old";
    effect_class = some "write-local";
    authorization_use_ref = some "use";
    legacy_actor_identity = none;
  };
}

abbrev applied_use : AuthorizationUse
applied_use = record {
  id = "use";
  authorization_ref = "grant";
  capability = "revision.apply";
  actor_ref = "agent";
  resource_ref = "old";
  effect_class = write_local;
  subject_version_refs = "rev" ∷ version_ref caseless texts checks "rev" 1 ∷ [];
  authorized_at = 20;
}

abbrev run : List String → Result Error RevisionRecord × Store
run versions =
    apply_revision caseless texts checks proposal (some "grant") (some "agent") none "write-local"
      none "use" at (store versions)

abbrev after : List String → Store
after versions = (run versions).1

run_applies : run ("rev" ∷ []) ≡ (ok applied, after ("rev" ∷ []))
unfolding apply_revision same_endpoints actual_actor advance proof_holds is_blank drop_suffix
    effect_text effect_order norm_cap capability_matches resource_matches effect_level effect_allows
    conditions_satisfied is_authorized_for validate_grant create_authorization_use lifecycle_machine
    machine_allows is_valid_lifecycle_transition save_record ◌>>=◌
run_applies = refl

abbrev id_of : Option Stored → String
id_of none = ""
id_of (some v) = stored_id v

found-id :
    (a b : Bool) (k : String) (v : Stored)
    → (a ≡ true → k ≡ "old")
    → (b ≡ true → k ≡ "new")
    → (if a then some (draft "old") else if b then some (draft "new") else none) ≡ some v
    → stored_id v ≡ k
found-id true b k v f g h = ap id_of (sym h) ∙ sym (f refl)
found-id false true k v f g h = ap id_of (sym h) ∙ sym (g refl)
found-id false false k v f g h = cc

store-HasIds : (versions : List String) → HasIds (store versions)
store-HasIds versions k v h =
    found-id (k == "old") (k == "new") k v ((eq_iff k "old").0) ((eq_iff k "new").0) h

store-IsKeyed : (versions : List String) → IsKeyed (store versions)
store-IsKeyed versions k v h = store-HasIds versions k (revision v) h

apply_revision-IsGranted_example :
    ((store ("rev" ∷ [])).records "rev" ≡ some (revision applied))
      × (applied.lifecycle_status ≡ "applied")
      × (after ("rev" ∷ []) ≡ store ("rev" ∷ []))
    ⊎ Granted caseless texts checks proposal
        (some "grant")
        "use"
        at
        (store ("rev" ∷ []))
        applied
        (after ("rev" ∷ []))
apply_revision-IsGranted_example =
    apply_revision-IsGranted caseless texts checks proposal (some "grant") (some "agent") none
      "write-local" none "use" at (store ("rev" ∷ [])) (after ("rev" ∷ [])) applied
      (store-IsKeyed ("rev" ∷ [])) run_applies

apply_revision_again_example :
    apply_revision caseless texts checks applied none none none "deploy" none "other" at
      (after ("rev" ∷ []))
    ≡ (ok applied, after ("rev" ∷ []))
apply_revision_again_example =
    apply_revision_again caseless texts checks proposal (some "grant") (some "agent") none
      "write-local" none "use" at (store ("rev" ∷ [])) (after ("rev" ∷ [])) applied none none none
      "deploy" none "other" at (store-IsKeyed ("rev" ∷ [])) run_applies

abbrev first_version : List String
first_version = version_ref caseless texts checks "rev" 1 ∷ []

put-id :
    (b : Bool) (k : String) (w v : Stored) (o : Option Stored)
    → (b ≡ true → stored_id w ≡ k)
    → (o ≡ some v → stored_id v ≡ k)
    → (if b then some w else o) ≡ some v
    → stored_id v ≡ k
put-id true k w v o f g h = ap id_of (sym h) ∙ f refl
put-id false k w v o f g h = g h

-- The store after the application, as far as a supersession reads it.
abbrev applied_store : Store
applied_store = record (store ("rev" ∷ [])) {
  records = put "rev" (revision applied) (store ("rev" ∷ [])).records;
  authorization_uses = put "use" applied_use (λ k. none);
}

applied_store-HasIds : HasIds applied_store
applied_store-HasIds k v h =
    put-id ("rev" == k) k (revision applied) v ((store ("rev" ∷ [])).records k) ((eq_iff "rev" k).0)
      (store-HasIds ("rev" ∷ []) k v) h

abbrev supersession : Result Error RecordRelation × Store
supersession =
    supersede caseless texts checks "old" "new" (by_record applied) "system" "rel" 30 applied_store

abbrev superseding : RecordRelation
superseding = record {
  id = "rel";
  relation_type = "supersedes";
  subject_ref = "new";
  object_ref = "old";
  created_at = 30;
  created_by = "system";
  revision_ref = some "rev";
}

supersedes : supersession ≡ (ok superseding, supersession.1)
unfolding supersede canonical_revision save_relation supersede_old promote_new write_supersession
    require_proof same_endpoints actual_actor advance proof_holds is_blank drop_suffix effect_text
    effect_order norm_cap capability_matches resource_matches effect_level effect_allows
    conditions_satisfied is_authorized_for validate_grant create_authorization_use lifecycle_machine
    machine_allows is_valid_lifecycle_transition save_record ◌>>=◌
supersedes = refl

supersede-Answers_example :
    Answers caseless texts checks "old" "new"
      (by_record applied)
      "rel"
      applied_store
      (ok superseding)
      supersession.1
supersede-Answers_example =
    supersede-Answers caseless texts checks "old" "new" (by_record applied) "system" "rel" 30
      applied_store supersession.1 (ok superseding) applied_store-HasIds supersedes
