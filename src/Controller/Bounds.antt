-- ===== src/Controller/Bounds.antt =====
-- What the work that a controller hands off is bounded by.
use portable_runtime.Base.{
  String, ◌≡◌, refl, ap, ◌∙◌, sym, Bool, true, false, not, arith, opt_eq_iff, subset_iff, All, In,
  some,
}
use portable_runtime.Controller.Models.{ControllerState, ControllerDecision, CognitiveClosure}
use portable_runtime.Responsibility.Models.{
  EffectClass, read_only, internal_reversible, external_effect,
}
use portable_runtime.Controller.Recording.{get_closure}
use portable_runtime.Controller.Apply.{hand_off, effect_of, same_effect}
use portable_runtime.Base.Result.{ok}
use portable_runtime.Journal.{Store, Env}
use portable_runtime.Journal.Logic.{Post, Gives-bind, Gives-reads, Gives-raise_if, Gives-require}

same_effect-eq : (a b : EffectClass) → same_effect a b ≡ true → a ≡ b
same_effect-eq read_only read_only h = refl
same_effect-eq read_only internal_reversible h = cc
same_effect-eq read_only external_effect h = cc
same_effect-eq internal_reversible read_only h = cc
same_effect-eq internal_reversible internal_reversible h = refl
same_effect-eq internal_reversible external_effect h = cc
same_effect-eq external_effect read_only h = cc
same_effect-eq external_effect internal_reversible h = cc
same_effect-eq external_effect external_effect h = refl

-- The decision refers to the active closure, which is recorded, has its effect class and asks for no
-- capability outside it.
pub record IsBounded (st : ControllerState) (d : ControllerDecision) (s : Store) : Type 0 where
  pub closure_ref : String
  pub closure : CognitiveClosure
  pub referred : d.closure_ref ≡ some closure_ref
  pub active : st.active_closure_ref ≡ some closure_ref
  pub recorded : get_closure st.id closure_ref s ≡ ok (some closure)
  pub effect : effect_of d.effect_class ≡ some closure.effect_class
  pub capabilities : All (λ x. In x closure.requested_capabilities) d.requested_capabilities

passed : (b : Bool) → not b ≡ false → b ≡ true
passed b h = ground arith

-- If work is handed off, the decision refers to the active closure of the state, that closure is
-- recorded, the effect class of the decision is that of the closure, and every capability that it
-- asks for is among those of the closure.
pub hand_off-IsBounded :
    (env : Env) (st : ControllerState) (d : ControllerDecision) (s : Store)
    → Post (λ _ _. IsBounded st d s) (λ _. Unit) (hand_off env st d s).0 (hand_off env st d s).1
unfolding hand_off
hand_off-IsBounded env st d s =
    let T = IsBounded st d s in
    Gives-require T s _ _ _ λ responsibility_ref _. Gives-require T s _ _ _ λ subject_ref _.
      Gives-require T s _ _ _ λ assessment_ref _. Gives-require T s _ _ _ λ title _.
        Gives-require T s _ _ _ λ closure_ref refers. Gives-raise_if T s _ _ _ λ active.
          Gives-reads T s _ _ λ found has. Gives-require T s _ _ _ λ c is_found.
            Gives-require T s _ _ _ λ effect is_effect. Gives-raise_if T s _ _ _ λ same.
              Gives-raise_if T s _ _ _ λ inside.
                Gives-bind T s
                  (record {
                    closure_ref = closure_ref;
                    closure = c;
                    referred = refers;
                    active =
                        sym (
                          (opt_eq_iff (some closure_ref) st.active_closure_ref).0
                            (passed _ active));
                    recorded = has ∙ ap (λ x. ok x) is_found;
                    effect =
                        is_effect
                        ∙ ap (λ x. some x) (same_effect-eq effect c.effect_class (passed _ same));
                    capabilities =
                        (subset_iff d.requested_capabilities c.requested_capabilities).0
                          (passed _ inside);
                  })
                  _ _
