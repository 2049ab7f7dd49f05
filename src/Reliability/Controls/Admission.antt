-- ===== src/Reliability/Controls/Admission.antt =====
-- When the gate lets a request through.
use portable_runtime.Base.{
  ℕ, ◌+◌, ◌≤◌, ◌<◌, ◌≡◌, refl, ◌↔◌, ◌⊎◌, Bool, true, false, ◌||◌, Option, none, some, List, [], ◌∷◌,
  length, arith, opt_eq, non_empty, not, ◌&&◌, if◌then◌else◌,
}
use portable_runtime.Reliability.Policy.{
  Duration, from_zero, below_zero, infinite, not_a_number, is_nan, is_negative, TimingInput,
  no_mapping, incomplete, complete, Observation, Reason, evaluate, decide, limit_reason,
  first_reason, request_reasons, timing_reasons, judge_window,
}
use portable_runtime.Reliability.Controls.{
  Controls, Request, requested_exposure, cooldown_left, recent, observe, assess,
}

-- The repair ends before the effect becomes irreversible.
abbrev pub Fits : Duration → Duration → Duration → Duration → Type 0
Fits (from_zero d) (from_zero j) (from_zero c) (from_zero i) = d + j + c < i
Fits (from_zero d) (from_zero j) (from_zero c) infinite = Unit
Fits _ _ _ _ = ⊥

-- The first time is NaN; or none is negative, and another is NaN or the repair fits.
abbrev pub Recovers : Duration → Duration → Duration → Duration → Type 0
Recovers d j c i =
    (is_nan d ≡ true)
    ⊎ ((is_negative d || is_negative j || is_negative c || is_negative i) ≡ false)
      × (((is_nan j || is_nan c || is_nan i) ≡ true) ⊎ Fits d j c i)

abbrev pub IsTimed : TimingInput → Type 0
IsTimed (complete t) = Recovers t.t_detect t.t_judge t.t_correct t.t_irreversible
IsTimed _ = ⊥

judge_window_iff : (d j c i : Duration) → (judge_window d j c i ≡ []) ↔ Recovers d j c i
judge_window_iff not_a_number j c i = ground arith
judge_window_iff (below_zero d) j c i = ground arith
judge_window_iff infinite j c i = ground arith
judge_window_iff (from_zero d) not_a_number c i = ground arith
judge_window_iff (from_zero d) (below_zero j) c i = ground arith
judge_window_iff (from_zero d) infinite c i = ground arith
judge_window_iff (from_zero d) (from_zero j) not_a_number i = ground arith
judge_window_iff (from_zero d) (from_zero j) (below_zero c) i = ground arith
judge_window_iff (from_zero d) (from_zero j) infinite i = ground arith
judge_window_iff (from_zero d) (from_zero j) (from_zero c) not_a_number = ground arith
judge_window_iff (from_zero d) (from_zero j) (from_zero c) (below_zero i) = ground arith
judge_window_iff (from_zero d) (from_zero j) (from_zero c) infinite = ground arith
judge_window_iff (from_zero d) (from_zero j) (from_zero c) (from_zero i) = ground arith

timing_reasons_iff : (t : TimingInput) → (timing_reasons t ≡ []) ↔ IsTimed t
timing_reasons_iff no_mapping = ground arith
timing_reasons_iff incomplete = ground arith
timing_reasons_iff (complete t) = judge_window_iff t.t_detect t.t_judge t.t_correct t.t_irreversible

-- A side effect has a positive radius and a positive exposure.
abbrev pub IsPositive : Request → Type 0
IsPositive r = r.side_effect ≡ true → (1 ≤ r.action_blast_radius) × (1 ≤ requested_exposure r)

abbrev pub is_enhanced : Request → Bool
is_enhanced r = opt_eq r.procedure_profile (some "enhanced") || r.irreversible

-- The cooldown since the last side effect has passed.
abbrev pub IsCool : Controls → ℕ → Type 0
IsCool c now =
    (last : ℕ) → c.last_side_effect_at ≡ some last → last + c.policy.cooldown_seconds ≤ now

abbrev pub WithinLimits : ℕ → ℕ → Request → Controls → Type 0
WithinLimits minute now r c =
    let limits = c.policy.limits in
    (length (recent minute now c.action_timestamps) < limits.max_action_rate)
    × (r.action_blast_radius ≤ limits.blast_radius)
    × (c.active_side_effects < limits.max_parallel_side_effects)
    × (c.side_effect_count < limits.side_effect_budget)
    × (c.exposure_used + requested_exposure r ≤ limits.exposure_budget)

pick_reasons_iff :
    (first later : List Reason) (b : Bool)
    → ((if not (non_empty first) && b then later else first) ≡ [])
      ↔ ((first ≡ []) × (b ≡ true → later ≡ []))
pick_reasons_iff [] later true = (λ h. (refl, λ _. h), λ h. h.1 refl)
pick_reasons_iff [] later false = (λ h. (refl, λ e. cc), λ h. refl)
pick_reasons_iff (x ∷ xs) later b = (λ h. cc h, λ h. cc (h.0))

request_reasons_iff :
    (o : Observation) (r : Request)
    → o.requested_blast_radius ≡ r.action_blast_radius
    → o.requested_exposure ≡ requested_exposure r
    → (request_reasons o r.side_effect ≡ []) ↔ IsPositive r
request_reasons_iff o r e f = (λ h. ground arith, λ h. ground arith)

risk_free_iff :
    (o : Observation) (r : Request)
    → o.requested_blast_radius ≡ r.action_blast_radius
    → o.requested_exposure ≡ requested_exposure r
    → ((evaluate o r.side_effect r.irreversible r.procedure_profile r.timing).reason_refs ≡ [])
      ↔ (IsPositive r × (is_enhanced r ≡ true → IsTimed r.timing))
unfolding evaluate
risk_free_iff o r e f =
    let pick =
      pick_reasons_iff (request_reasons o r.side_effect) (timing_reasons r.timing)
        (is_enhanced r) in
    let first = request_reasons_iff o r e f in
    let timed = timing_reasons_iff r.timing in
    (
      λ h. (first.0 (pick.0 h).0, λ b. timed.0 ((pick.0 h).1 b)),
      λ h. pick.1 (first.1 h.0, λ b. timed.1 (h.1 b)),
    )

cooldown_iff :
    (last : Option ℕ) (cooldown now : ℕ)
    → (cooldown_left last cooldown now ≡ 0) ↔ ((at : ℕ) → last ≡ some at → at + cooldown ≤ now)
cooldown_iff none cooldown now = (λ h at e. cc, λ h. refl)
cooldown_iff (some x) cooldown now = (λ h at e. ground arith, λ h. ground (arith, h x refl))

limit_free_iff :
    (minute now : ℕ) (r : Request) (c : Controls)
    → (limit_reason
          (observe now r (record c { action_timestamps = recent minute now c.action_timestamps }))
          c.policy.limits
        ≡ none)
      ↔ (WithinLimits minute now r c × IsCool c now)
unfolding observe
limit_free_iff minute now r c =
    let cool = cooldown_iff c.last_side_effect_at c.policy.cooldown_seconds now in
    (λ h. (ground arith, cool.0 (ground arith)), λ h. ground (arith, cool.1 h.1))

first_reason_iff :
    (refs : List Reason) (limit : Option Reason)
    → (first_reason refs limit ≡ none) ↔ ((refs ≡ []) × (limit ≡ none))
first_reason_iff [] limit = (λ h. (refl, h), λ h. h.1)
first_reason_iff (x ∷ xs) limit = (λ h. cc, λ h. cc (h.0))

-- The gate allows a request exactly if its facts are positive where it has a side effect, its four
-- recovery times are given and pass where it is enhanced or irreversible, no limit or budget of the
-- policy is reached, and the cooldown has passed. The times pass if none is negative and the repair
-- ends before the effect becomes irreversible, but also if the first is NaN, or if another is NaN and
-- none is negative.
pub assess_iff :
    (minute now : ℕ) (r : Request) (c : Controls)
    → ((assess minute now r c).0 ≡ none) ↔ (
        IsPositive r
        × (is_enhanced r ≡ true → IsTimed r.timing)
        × WithinLimits minute now r c
        × IsCool c now)
unfolding assess decide
assess_iff minute now r c =
    let c' = record c { action_timestamps = recent minute now c.action_timestamps } in
    let o = observe now r c' in
    let risk = evaluate o r.side_effect r.irreversible r.procedure_profile r.timing in
    let split = first_reason_iff risk.reason_refs (limit_reason o c.policy.limits) in
    let risky = risk_free_iff o r refl refl in
    let limited = limit_free_iff minute now r c in
    (
      λ h.
          let (e, f) = split.0 h in
          ((risky.0 e).0, (risky.0 e).1, (limited.0 f).0, (limited.0 f).1),
      λ h. split.1 (risky.1 (h.0, h.1), limited.1 (h.2, h.3)),
    )
