-- ===== src/Records/Revalidation/Tests.antt =====
-- Revalidation on concrete relations.
use portable_runtime.Base.{String, ◌≡◌, refl, true, false, some, List, [], ◌∷◌}
use portable_runtime.Base.Text.{CaseMapping, strip}
use portable_runtime.Records.Reopen.Search.{Relation}
use portable_runtime.Records.Revalidation.Models.{default_profile, normal, action_for, risk_for}
use portable_runtime.Records.Revalidation.Detect.{
  watched, assess_revalidation, detect_dependency_impacts, detect_after, should_block,
  assessment_of, sync_layers, sync_impact, sync_risk, sync_disposition, derive_risk_assessment,
  derive_revalidation_disposition, is_blocking,
}
use portable_runtime.Records.Revalidation.Direct.{
  find, mapped, is_direct, blocks, assess_revalidation_lem,
}

abbrev as_written : CaseMapping
as_written = record { lower = λ s. s; lower_plain = λ s h. refl }

abbrev relation : String → String → Relation
relation id relation_type = record {
  id = id;
  relation_type = relation_type;
  subject_ref = "claim";
  object_ref = "model_1";
}

abbrev weak_first : List Relation
weak_first = relation "r1" "depends-on" ∷ relation "r2" "validated-under" ∷ []

abbrev strong_first : List Relation
strong_first = relation "r2" "validated-under" ∷ relation "r1" "depends-on" ∷ []

-- The order of the relations decides whether the next use is blocked.
weak_hides_strong :
    mapped
      (blocks "claim")
      (assess_revalidation as_written default_profile "model_1" "model" weak_first)
    ≡ some (some false)
unfolding assess_revalidation assessment_of detect_dependency_impacts detect_after sync_layers
    sync_impact sync_risk sync_disposition derive_risk_assessment derive_revalidation_disposition
    action_for risk_for should_block strip
weak_hides_strong = refl

strong_blocks :
    mapped
      (blocks "claim")
      (assess_revalidation as_written default_profile "model_1" "model" strong_first)
    ≡ some (some true)
unfolding assess_revalidation assessment_of detect_dependency_impacts detect_after sync_layers
    sync_impact sync_risk sync_disposition derive_risk_assessment derive_revalidation_disposition
    action_for risk_for should_block strip
strong_blocks = refl

assess_revalidation_lem_example :
    mapped
      (blocks "claim")
      (assess_revalidation as_written default_profile "model_1" "model" weak_first)
    ≡ some (
        mapped
          (λ rel.
            is_blocking
              (action_for as_written default_profile (normal as_written "model") rel.relation_type))
          (find
            (is_direct (watched as_written (normal as_written "model")) "model_1" "claim")
            weak_first))
assess_revalidation_lem_example =
    assess_revalidation_lem as_written default_profile "model_1" "model" "claim" weak_first refl
      refl
