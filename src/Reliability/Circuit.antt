-- ===== src/Reliability/Circuit.antt =====
-- `CircuitBreaker`. An instant and a duration are numbers of one unit; `now` is what
-- `time.monotonic()` answers in the call.
pub mod Laws
use portable_runtime.Base.{ℕ, ◌+◌, Bool, true, false, not, Option, none, some, leb, if◌then◌else◌}

pub data State : Type 0 where
  closed open_ half_open : State

pub record CircuitBreaker : Type 0 where
  pub failure_threshold : ℕ
  pub recovery_timeout : ℕ
  pub half_open_probes : ℕ
  pub failures : ℕ
  pub state : State
  pub opened_at : Option ℕ
  pub successes : ℕ

-- A breaker with the default counters.
abbrev pub new_breaker : ℕ → ℕ → ℕ → CircuitBreaker
new_breaker threshold timeout probes = record {
  failure_threshold = threshold;
  recovery_timeout = timeout;
  half_open_probes = probes;
  failures = 0;
  state = closed;
  opened_at = none;
  successes = 0;
}

-- The body of `record_success` after the failures are reset, by the state.
abbrev pub success_in : State → CircuitBreaker → CircuitBreaker
success_in half_open b =
    if leb b.half_open_probes (b.successes + 1)
    then record b { state = closed; successes = 0 }
    else record b { successes = b.successes + 1 }
success_in _ b = record b { state = closed }

unfoldable pub record_success : CircuitBreaker → CircuitBreaker
record_success b = success_in b.state (record b { failures = 0 })

unfoldable pub record_failure : ℕ → CircuitBreaker → CircuitBreaker
record_failure now b =
    let b' = record b { failures = b.failures + 1 } in
    if leb b'.failure_threshold b'.failures
    then record b' { state = open_; opened_at = some now }
    else b'

-- `now - opened_at >= recovery_timeout`
abbrev pub has_recovered : Option ℕ → ℕ → ℕ → Bool
has_recovered none timeout now = false
has_recovered (some at) timeout now = leb (at + timeout) now

abbrev pub allow_in : State → ℕ → CircuitBreaker → Bool × CircuitBreaker
allow_in closed now b = (true, b)
allow_in open_ now b =
    if has_recovered b.opened_at b.recovery_timeout now
    then (true, record b { state = half_open; successes = 0 })
    else (false, b)
allow_in half_open now b = (true, b)

unfoldable pub allow : ℕ → CircuitBreaker → Bool × CircuitBreaker
allow now b = allow_in b.state now b

-- The property `state`, which moves an open breaker on as well.
abbrev pub observe_in : State → ℕ → CircuitBreaker → State × CircuitBreaker
observe_in open_ now b =
    if has_recovered b.opened_at b.recovery_timeout now
    then (half_open, record b { state = half_open })
    else (open_, b)
observe_in s now b = (s, b)

unfoldable pub observe_state : ℕ → CircuitBreaker → State × CircuitBreaker
observe_state now b = observe_in b.state now b
