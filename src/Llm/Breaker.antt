-- ===== src/Llm/Breaker.antt =====
-- CircuitBreaker of app/llm/client.py. A time is a number of nanoseconds of the monotonic clock.
use nbfc_compliance_agent.Prelude.{
  ℕ, ◌+◌, ◌*◌, ◌≤◌, ◌<◌, ltb, leb, Bool, false, ◌≡◌, Option, none, some, arith, if◌then◌else◌,
}

pub record CircuitBreaker : Type 0 where
  pub fail_threshold : ℕ
  pub reset_s : ℕ
  pub consecutive_failures : ℕ
  pub opened_at : Option ℕ

unfoldable pub new_breaker : ℕ → ℕ → CircuitBreaker
new_breaker fail_threshold reset_s = record {
  fail_threshold = fail_threshold;
  reset_s = reset_s;
  consecutive_failures = 0;
  opened_at = none;
}

abbrev pub second : ℕ
second = 1000000000

-- `time.monotonic() - self._opened_at < self.reset_s`
unfoldable pub is_open : ℕ → CircuitBreaker → Bool
is_open now b = elim b.opened_at [
  | none ↦ false
  | some opened ↦ ltb now (opened + b.reset_s * second)
]

unfoldable pub record_success : CircuitBreaker → CircuitBreaker
record_success b = record b { consecutive_failures = 0; opened_at = none }

unfoldable pub record_failure : ℕ → CircuitBreaker → CircuitBreaker
record_failure now b =
    if leb b.fail_threshold (b.consecutive_failures + 1)
    then record b { consecutive_failures = b.consecutive_failures + 1; opened_at = some now }
    else record b { consecutive_failures = b.consecutive_failures + 1 }

-- The breaker has a time of opening exactly when its failures in a row reach the threshold.
pub record IsSound (b : CircuitBreaker) : Type 0 where
  pub threshold : 0 < b.fail_threshold
  pub opened : (t : ℕ) → b.opened_at ≡ some t → b.fail_threshold ≤ b.consecutive_failures
  pub closed : b.opened_at ≡ none → b.consecutive_failures < b.fail_threshold

pub new_breaker-IsSound : (n reset_s : ℕ) → 0 < n → IsSound (new_breaker n reset_s)
unfolding new_breaker
new_breaker-IsSound n reset_s h = record {
  threshold = h;
  opened = λ t e. absurd (ground (arith, e));
  closed = λ e. h;
}

pub record_success-IsSound : (b : CircuitBreaker) → IsSound b → IsSound (record_success b)
unfolding record_success
record_success-IsSound b s = record {
  threshold = s.threshold;
  opened = λ t e. absurd (ground (arith, e));
  closed = λ e. s.threshold;
}

pub record_failure-IsSound :
    (now : ℕ) (b : CircuitBreaker) → IsSound b → IsSound (record_failure now b)
unfolding record_failure
record_failure-IsSound now b s = record {
  threshold = ground (arith, s.threshold);
  opened = λ t e. ground (arith, e, s.opened t);
  closed = λ e. ground (arith, e, s.closed);
}
