-- ===== src/Reliability/Controls/Budgets.antt =====
-- How far requests that pass the gate can exceed a budget of the policy. The boundary asks the gate and
-- records the action later, so that other requests may be let through in between.
use portable_runtime.Base.{ℕ, ◌+◌, ◌≤◌, ◌<◌, ◌≡◌, ◌≢◌, Bool, none, List, [], ◌∷◌, ◌++◌, length}
use portable_runtime.Reliability.Policy.{Policy}
use portable_runtime.Reliability.Controls.{
  Controls, Request, new_controls, requested_exposure, assess, record_action, complete_action,
}

-- The controls, with the requests that the gate has let through and that are not recorded.
pub record Gate : Type 0 where
  pub controls : Controls
  pub pending : List Request

abbrev pub total_exposure : List Request → ℕ
total_exposure [] = 0
total_exposure (r ∷ rs) = requested_exposure r + total_exposure rs

-- One use of the controls: a request that the gate refuses; one that it lets through while at most so
-- many others, of so much exposure, are pending; the recording of a pending request, whose side effect
-- may be decided anew; a pending request that is given up; or the end of an action.
pub data Step (minute others exposure : ℕ) (g : Gate) : Gate → Type 0 where
  refused :
      (now : ℕ) (r : Request)
      → (assess minute now r g.controls).0 ≢ none
      → Step minute others exposure g
          (record { controls = (assess minute now r g.controls).1; pending = g.pending })
  admitted :
      (now : ℕ) (r : Request)
      → length g.pending ≤ others
      → total_exposure g.pending ≤ exposure
      → (assess minute now r g.controls).0 ≡ none
      → Step minute others exposure g
          (record { controls = (assess minute now r g.controls).1; pending = r ∷ g.pending })
  recorded :
      (acted started : ℕ) (before later : List Request) (r : Request) (side_effect : Bool)
      → g.pending ≡ before ++ r ∷ later
      → Step minute others exposure g (record {
        controls = record_action acted started (record r { side_effect = side_effect }) g.controls;
        pending = before ++ later;
      })
  given_up :
      (before later : List Request) (r : Request)
      → g.pending ≡ before ++ r ∷ later
      → Step minute others exposure g (record { controls = g.controls; pending = before ++ later })
  completed :
      (side_effect : Bool)
      → Step minute others exposure g
          (record { controls = complete_action side_effect g.controls; pending = g.pending })

pub data Reach (minute others exposure : ℕ) (g : Gate) : Gate → Type 0 where
  here : Reach minute others exposure g g
  next :
      {h k : Gate}
      → Reach minute others exposure g h
      → Step minute others exposure h k
      → Reach minute others exposure g k

abbrev pub new_gate : Policy → Gate
new_gate policy = record { controls = new_controls policy; pending = [] }

pub record IsWithin (policy : Policy) (others exposure : ℕ) (g : Gate) : Type 0 where
  pub same_policy : g.controls.policy ≡ policy
  pub effects :
      g.controls.side_effect_count + length g.pending ≤ policy.limits.side_effect_budget + others
  pub parallel :
      g.controls.active_side_effects + length g.pending
      ≤ policy.limits.max_parallel_side_effects + others
  pub exposed :
      g.controls.exposure_used + total_exposure g.pending ≤ policy.limits.exposure_budget + exposure

-- What the gate has tested of the budgets of a policy.
abbrev WithinPolicy : Policy → Request → Controls → Type 0
WithinPolicy p r c =
    (c.active_side_effects < p.limits.max_parallel_side_effects)
    × (c.side_effect_count < p.limits.side_effect_budget)
    × (c.exposure_used + requested_exposure r ≤ p.limits.exposure_budget)
