-- ===== src/Reliability/Circuit/Laws.antt =====
-- What the breaker lets through, over any history of calls.
use portable_runtime.Base.{
  ℕ, ◌+◌, ◌≤◌, ◌<◌, ◌≡◌, ◌≢◌, ◌↔◌, true, false, none, List, [], ◌∷◌, length, arith,
}
use portable_runtime.Reliability.Circuit.{
  closed, open_, half_open, CircuitBreaker, new_breaker, record_success, record_failure, allow,
  observe_state, has_recovered,
}

-- A call on the breaker, at an instant.
pub data Call : Type 0 where
  success : Call
  failure allowing observing : ℕ → Call

unfoldable pub perform : Call → CircuitBreaker → CircuitBreaker
perform success b = record_success b
perform (failure now) b = record_failure now b
perform (allowing now) b = (allow now b).1
perform (observing now) b = (observe_state now b).1

unfoldable pub perform_all : List Call → CircuitBreaker → CircuitBreaker
perform_all [] b = b
perform_all (c ∷ cs) b = perform_all cs (perform c b)

-- An open breaker knows since when, and has reached its threshold; a closed one is below it.
pub record IsValid (b : CircuitBreaker) : Type 0 where
  pub threshold_positive : 0 < b.failure_threshold
  pub open_dated : b.state ≡ open_ → b.opened_at ≢ none
  pub open_reached : b.state ≡ open_ → b.failure_threshold ≤ b.failures
  pub closed_below : b.state ≡ closed → b.failures < b.failure_threshold

perform-IsValid : (c : Call) (b : CircuitBreaker) → IsValid b → IsValid (perform c b)
unfolding perform record_success record_failure allow observe_state
perform-IsValid success b h = ground arith
perform-IsValid (failure now) b h = ground arith
perform-IsValid (allowing now) b h = ground arith
perform-IsValid (observing now) b h = ground arith

perform_all-IsValid : (cs : List Call) (b : CircuitBreaker) → IsValid b → IsValid (perform_all cs b)
unfolding perform_all
perform_all-IsValid [] b h = h
perform_all-IsValid (c ∷ cs) b h = perform_all-IsValid cs (perform c b) (perform-IsValid c b h)

new_breaker-IsValid : (n t p : ℕ) → 0 < n → IsValid (new_breaker n t p)
new_breaker-IsValid n t p h = ground arith

refuses_only_open :
    (now : ℕ) (b : CircuitBreaker)
    → IsValid b
    → ((allow now b).0 ≡ false)
      ↔ ((b.state ≡ open_) × (has_recovered b.opened_at b.recovery_timeout now ≡ false))
unfolding allow
refuses_only_open now b h = (λ e. ground arith, λ e. ground arith)

-- After any calls on a new breaker with a positive threshold, an open breaker knows since when and
-- has counted as many failures as the threshold, a closed one fewer, and `allow` refuses exactly
-- while the breaker is open and its recovery time has not passed.
pub breaker_invariant :
    (cs : List Call) (n t p now : ℕ)
    → 0 < n
    → let b = perform_all cs (new_breaker n t p) in
      IsValid b
      × (((allow now b).0 ≡ false)
          ↔ ((b.state ≡ open_) × (has_recovered b.opened_at b.recovery_timeout now ≡ false)))
breaker_invariant cs n t p now h =
    let v = perform_all-IsValid cs (new_breaker n t p) (new_breaker-IsValid n t p h) in
    (v, refuses_only_open now (perform_all cs (new_breaker n t p)) v)

-- Failures in a row, at the given instants.
pub failures_at : List ℕ → CircuitBreaker → CircuitBreaker
failures_at [] b = b
failures_at (at ∷ ats) b = failures_at ats (record_failure at b)

failures_state :
    (ats : List ℕ) (b : CircuitBreaker)
    → b.state ≢ half_open
    → (b.state ≡ open_) ↔ (b.failure_threshold ≤ b.failures)
    → ((failures_at ats b).state ≡ open_) ↔ (b.failure_threshold ≤ b.failures + length ats)
unfolding failures_at record_failure
failures_state [] b n h = ground arith
failures_state (at ∷ ats) b n h =
    let still : (record_failure at b).state ≢ half_open = ground arith in
    let reached : ((record_failure at b).state ≡ open_)
        ↔ ((record_failure at b).failure_threshold ≤ (record_failure at b).failures) =
      ground arith in
    let counted : (record_failure at b).failures ≡ b.failures + 1 = ground arith in
    let kept : (record_failure at b).failure_threshold ≡ b.failure_threshold = ground arith in
    let ih = failures_state ats (record_failure at b) still reached in
    ground (arith, ih, counted, kept)

-- A new breaker with a positive threshold that sees only failures is open exactly when they are as
-- many as the threshold, whenever they came.
pub opens_at_threshold :
    (ats : List ℕ) (n t p : ℕ)
    → 0 < n
    → ((failures_at ats (new_breaker n t p)).state ≡ open_) ↔ (n ≤ length ats)
opens_at_threshold ats n t p h = ground (arith, failures_state ats (new_breaker n t p))

-- Where an open breaker whose recovery time has passed still counts successes of an earlier trial, and
-- all but one of the probes, then one success closes it after a look at `state`, while after `allow`,
-- with more than one probe to make, it leaves it half open: the look does not reset the count.
pub observed_recovery_skips_probes :
    (now : ℕ) (b : CircuitBreaker)
    → b.state ≡ open_
    → has_recovered b.opened_at b.recovery_timeout now ≡ true
    → 1 < b.half_open_probes
    → b.half_open_probes ≤ b.successes + 1
    → ((record_success (observe_state now b).1).state ≡ closed)
      × ((record_success (allow now b).1).state ≡ half_open)
unfolding record_success observe_state allow
observed_recovery_skips_probes now b e h m k = ground arith
