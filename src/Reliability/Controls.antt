-- ===== src/Reliability/Controls.antt =====
-- `ReliabilityControls`: the gate that the boundary asks before a provider is invoked. `now` is what
-- `time.monotonic()` answers in the call, and a minute is 60 seconds of the clock's unit.

pub mod Admission
pub mod Budgets
use portable_runtime.Base.{
  ℕ, ◌+◌, ◌-◌, String, Bool, true, false, ◌&&◌, Option, none, some, ltb, List, [], ◌∷◌, ◌++◌,
  length, keep, if◌then◌else◌,
}
use portable_runtime.Reliability.Policy.{
  Observation, RiskAssessment, Reason, Limits, Policy, TimingInput, evaluate, decide,
}

pub record Controls : Type 0 where
  pub policy : Policy
  pub action_timestamps : List ℕ
  pub side_effect_count : ℕ
  pub active_side_effects : ℕ
  pub exposure_used : ℕ
  pub last_side_effect_at : Option ℕ
  pub last_block_reason : Option Reason
  pub last_risk_assessment : Option RiskAssessment
  pub last_disposition : Option (Option Reason)

-- The controls that `__init__` builds for a policy.
abbrev pub new_controls : Policy → Controls
new_controls policy = record {
  policy = policy;
  action_timestamps = [];
  side_effect_count = 0;
  active_side_effects = 0;
  exposure_used = 0;
  last_side_effect_at = none;
  last_block_reason = none;
  last_risk_assessment = none;
  last_disposition = none;
}

-- What a caller says of its request.
pub record Request : Type 0 where
  pub side_effect : Bool
  pub action_blast_radius : ℕ
  pub exposure : Option ℕ
  pub irreversible : Bool
  pub procedure_profile : Option String
  pub timing : TimingInput

-- `exposure if exposure is not None else action_blast_radius`
abbrev pub requested_exposure : Request → ℕ
requested_exposure r = elim r.exposure [ none ↦ r.action_blast_radius | some e ↦ e ]

abbrev pub cooldown_left : Option ℕ → ℕ → ℕ → ℕ
cooldown_left none cooldown now = 0
cooldown_left (some last) cooldown now = (last + cooldown) - now

abbrev pub recent : ℕ → ℕ → List ℕ → List ℕ
recent minute now = keep (λ t. ltb now (t + minute))

unfoldable pub observe : ℕ → Request → Controls → Observation
observe now r c = record {
  action_rate = length c.action_timestamps;
  active_side_effects = c.active_side_effects;
  side_effect_count = c.side_effect_count;
  exposure_used = c.exposure_used;
  requested_blast_radius = r.action_blast_radius;
  requested_exposure = requested_exposure r;
  cooldown_remaining = cooldown_left c.last_side_effect_at c.policy.cooldown_seconds now;
}

-- `none` is the answer `(True, "allowed")`, a reason the answer `(False, its text)`.
unfoldable pub assess : ℕ → ℕ → Request → Controls → Option Reason × Controls
unfolding observe
assess minute now r c =
    let c' = record c { action_timestamps = recent minute now c.action_timestamps } in
    let observation = observe now r c' in
    let risk = evaluate observation r.side_effect r.irreversible r.procedure_profile r.timing in
    let disposition = decide observation risk c.policy.limits in
    (
      disposition,
      record c' {
        last_risk_assessment = some risk;
        last_disposition = some disposition;
        last_block_reason = disposition;
      },
    )

unfoldable pub can_execute : ℕ → ℕ → Request → Controls → Bool × Controls
unfolding assess
can_execute minute now r c =
    let (answer, c') = assess minute now r c in (elim answer [ none ↦ true | some _ ↦ false ], c')

-- `acted` and `now` are the two readings of the clock.
unfoldable pub record_action : ℕ → ℕ → Request → Controls → Controls
record_action acted now r c =
    let c' = record c { action_timestamps = c.action_timestamps ++ acted ∷ [] } in
    if r.side_effect
    then record c' {
      side_effect_count = c.side_effect_count + 1;
      active_side_effects = c.active_side_effects + 1;
      exposure_used = c.exposure_used + requested_exposure r;
      last_side_effect_at = some now;
    }
    else c'

unfoldable pub complete_action : Bool → Controls → Controls
complete_action side_effect c =
    if side_effect && ltb 0 c.active_side_effects
    then record c { active_side_effects = c.active_side_effects - 1 }
    else c
