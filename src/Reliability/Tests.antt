-- ===== src/Reliability/Tests.antt =====
-- The theorems on the breaker and on the gate at concrete histories.
use portable_runtime.Base.{◌≡◌, refl, ◌↔◌, true, false, none, some, List, [], ◌∷◌, arith}
use portable_runtime.Reliability.Circuit.{
  CircuitBreaker, new_breaker, open_, closed, half_open, record_success, observe_state, allow,
  has_recovered,
}
use portable_runtime.Reliability.Circuit.Laws.{
  Call, failure, observing, success, perform_all, IsValid, breaker_invariant,
  observed_recovery_skips_probes,
}
use portable_runtime.Reliability.Policy.{
  Policy, no_mapping, complete, from_zero, infinite, not_a_number, recovery_window, evaluate,
  decide,
}
use portable_runtime.Reliability.Controls.{Request, new_controls, assess, record_action, observe}
use portable_runtime.Reliability.Controls.Admission.{
  IsPositive, is_enhanced, IsTimed, WithinLimits, IsCool, assess_iff,
}
use portable_runtime.Reliability.Controls.Budgets.{Gate}

abbrev history : List Call
history = failure 1 ∷ failure 2 ∷ observing 40 ∷ success ∷ failure 41 ∷ []

breaker_invariant_example :
    let b = perform_all history (new_breaker 2 30 2) in
    IsValid b
    × (((allow 45 b).0 ≡ false)
        ↔ ((b.state ≡ open_) × (has_recovered b.opened_at b.recovery_timeout 45 ≡ false)))
breaker_invariant_example = breaker_invariant history 2 30 2 45 (omega arith)

-- Open anew since 10, with one of two probes still counted from the trial before.
abbrev reopened : CircuitBreaker
reopened = record (new_breaker 1 30 2) {
  failures = 1;
  state = open_;
  opened_at = some 10;
  successes = 1;
}

observed_recovery_skips_probes_example :
    ((record_success (observe_state 50 reopened).1).state ≡ closed)
    × ((record_success (allow 50 reopened).1).state ≡ half_open)
observed_recovery_skips_probes_example =
    observed_recovery_skips_probes 50 reopened refl refl (omega arith) (omega arith)

abbrev policy : Policy
policy = record {
  limits = record {
    max_action_rate = 2;
    max_parallel_side_effects = 1;
    blast_radius = 5;
    exposure_budget = 4;
    side_effect_budget = 10;
  };
  cooldown_seconds = 0;
}

abbrev request : Request
request = record {
  side_effect = true;
  action_blast_radius = 3;
  exposure = none;
  irreversible = false;
  procedure_profile = none;
  timing = no_mapping;
}

assess_iff_example : ((assess 60 7 request (new_controls policy)).0 ≡ none) ↔ (
    IsPositive request
    × (is_enhanced request ≡ true → IsTimed request.timing)
    × WithinLimits 60 7 request (new_controls policy)
    × IsCool (new_controls policy) 7)
assess_iff_example = assess_iff 60 7 request (new_controls policy)

-- Two requests are let through before either is recorded.
abbrev interleaved : Gate
interleaved = record {
  controls = record_action 9 9 request (
      record_action 8 8 request
        (assess 60 7 request (assess 60 7 request (new_controls policy)).1).1);
  pending = [];
}

-- The policy admits one side effect in flight, and an exposure of 4.
limits_exceeded :
    (interleaved.controls.active_side_effects ≡ 2) × (interleaved.controls.exposure_used ≡ 6)
unfolding record_action assess
limits_exceeded = (refl, refl)

-- An enhanced request whose last recovery time is NaN is let through, whatever the others are.
abbrev untimed : Request
untimed = record request {
  procedure_profile = some "enhanced";
  timing = complete record {
    t_detect = from_zero 900;
    t_judge = from_zero 900;
    t_correct = from_zero 900;
    t_irreversible = not_a_number;
  };
}

nan_allowed : (assess 60 7 untimed (new_controls policy)).0 ≡ none
unfolding assess observe evaluate decide
nan_allowed = refl

infinite_refused :
    (assess 60 7
      (record untimed {
        timing = complete record {
          t_detect = from_zero 1;
          t_judge = infinite;
          t_correct = from_zero 1;
          t_irreversible = infinite;
        };
      })
      (new_controls policy)).0
    ≡ some recovery_window
unfolding assess observe evaluate decide
infinite_refused = refl
