-- ===== src/Reliability/Policy.antt =====
-- `ReliabilityRiskEvaluator` and `DefaultLocalReliabilityPolicy`. The numbers of a request are
-- naturals; the recovery times are what `float` reads, but for fractions.
use portable_runtime.Base.{
  ℕ, ◌+◌, String, Bool, true, false, not, ◌&&◌, ◌||◌, Option, none, some, opt_eq, ltb, leb,
  non_empty, List, [], ◌∷◌, if◌then◌else◌,
}

-- A recovery time, as `float` reads it: `from_zero n` is n, `below_zero n` is -(n + 1) and stands for
-- minus infinity too, whose size no test comes to, and there are infinity and NaN.
pub data Duration : Type 0 where
  from_zero below_zero : ℕ → Duration
  infinite not_a_number : Duration

abbrev pub is_negative : Duration → Bool
is_negative (below_zero _) = true
is_negative _ = false

abbrev pub is_infinite : Duration → Bool
is_infinite infinite = true
is_infinite _ = false

abbrev pub is_nan : Duration → Bool
is_nan not_a_number = true
is_nan _ = false

-- A finite time is its upper part less its lower part.
abbrev pub upper : Duration → ℕ
upper (from_zero n) = n
upper _ = 0

abbrev pub lower : Duration → ℕ
lower (below_zero n) = n + 1
lower _ = 0

pub record Timing : Type 0 where
  pub t_detect : Duration
  pub t_judge : Duration
  pub t_correct : Duration
  pub t_irreversible : Duration

-- The argument `timing`: no mapping, a mapping that lacks one of the four numbers, or the numbers.
pub data TimingInput : Type 0 where
  no_mapping : TimingInput
  incomplete : TimingInput
  complete : Timing → TimingInput

pub record Observation : Type 0 where
  pub action_rate : ℕ
  pub active_side_effects : ℕ
  pub side_effect_count : ℕ
  pub exposure_used : ℕ
  pub requested_blast_radius : ℕ
  pub requested_exposure : ℕ
  pub cooldown_remaining : ℕ

pub data Reason : Type 0 where
  blast_radius_positive exposure_positive : Reason
  recovery_timing_required recovery_timing_incomplete : Reason
  recovery_timing_non_negative recovery_window : Reason
  max_action_rate blast_radius_limit parallel_side_effect_limit : Reason
  side_effect_budget exposure_budget cooldown : Reason

pub data Severity : Type 0 where
  no_risk low high critical : Severity

pub record RiskAssessment : Type 0 where
  pub severity : Severity
  pub reason_refs : List Reason

pub record Limits : Type 0 where
  pub max_action_rate : ℕ
  pub max_parallel_side_effects : ℕ
  pub blast_radius : ℕ
  pub exposure_budget : ℕ
  pub side_effect_budget : ℕ

pub record Policy : Type 0 where
  pub limits : Limits
  pub cooldown_seconds : ℕ

-- `min(values) < 0`: `min` keeps its first value where no other compares as smaller, which none does to
-- NaN, and NaN not to another.
abbrev pub has_negative : Duration → Duration → Duration → Duration → Bool
has_negative not_a_number j c i = false
has_negative d j c i = is_negative d || is_negative j || is_negative c || is_negative i

-- `t_detect + t_judge + t_correct >= t_irreversible`, which is false where a NaN takes part.
abbrev pub overruns : Duration → Duration → Duration → Duration → Bool
overruns d j c i =
    if is_nan d || is_nan j || is_nan c || is_nan i
    then false
    else if is_infinite d || is_infinite j || is_infinite c
    then true
    else if is_infinite i
    then false
    else leb (upper i + (lower d + lower j + lower c)) (upper d + upper j + upper c + lower i)

abbrev pub judge_window : Duration → Duration → Duration → Duration → List Reason
judge_window d j c i =
    if has_negative d j c i
    then recovery_timing_non_negative ∷ []
    else if overruns d j c i
    then recovery_window ∷ []
    else []

abbrev pub timing_reasons : TimingInput → List Reason
timing_reasons no_mapping = recovery_timing_required ∷ []
timing_reasons incomplete = recovery_timing_incomplete ∷ []
timing_reasons (complete t) = judge_window t.t_detect t.t_judge t.t_correct t.t_irreversible

-- The reasons that stand before the test of the timing.
abbrev pub request_reasons : Observation → Bool → List Reason
request_reasons observation side_effect =
    if side_effect && ltb observation.requested_blast_radius 1
    then blast_radius_positive ∷ []
    else if side_effect && ltb observation.requested_exposure 1
    then exposure_positive ∷ []
    else []

-- `ReliabilityRiskEvaluator.evaluate`
unfoldable pub evaluate : Observation → Bool → Bool → Option String → TimingInput → RiskAssessment
evaluate observation side_effect irreversible procedure_profile timing =
    let first = request_reasons observation side_effect in
    let enhanced = opt_eq procedure_profile (some "enhanced") || irreversible in
    let reasons = if not (non_empty first) && enhanced then timing_reasons timing else first in
    record { severity = if non_empty reasons then high else no_risk; reason_refs = reasons }

-- The ladder of limits of `decide`, taken where the assessment gives no reason.
abbrev pub limit_reason : Observation → Limits → Option Reason
limit_reason o limits =
    if leb limits.max_action_rate o.action_rate
    then some max_action_rate
    else if ltb limits.blast_radius o.requested_blast_radius
    then some blast_radius_limit
    else if leb limits.max_parallel_side_effects o.active_side_effects
    then some parallel_side_effect_limit
    else if leb limits.side_effect_budget o.side_effect_count
    then some side_effect_budget
    else if ltb limits.exposure_budget (o.exposure_used + o.requested_exposure)
    then some exposure_budget
    else if ltb 0 o.cooldown_remaining
    then some cooldown
    else none

abbrev pub first_reason : List Reason → Option Reason → Option Reason
first_reason [] r = r
first_reason (x ∷ _) r = some x

-- `ReliabilityDisposition`: `none` is the action "allow", a reason the action "deny" with its text.
unfoldable pub decide : Observation → RiskAssessment → Limits → Option Reason
decide o risk limits = first_reason risk.reason_refs (limit_reason o limits)
