-- ===== src/Hcm/CircuitBreaker.antt =====
-- src/integration/hcm/circuit-breaker.ts
pub mod Failures
use readyon.Base.{ℕ, ◌+◌, ◌-◌, Bool, leb, if◌then◌else◌}

pub data CircuitState : Type 0 where
  closed open_circuit half_open : CircuitState

-- `failure_threshold` and `cooldown_ms` are read from the environment.
pub record CircuitBreaker : Type 0 where
  pub state : CircuitState
  pub consecutive_failures : ℕ
  pub last_failure_time : ℕ
  pub failure_threshold : ℕ
  pub cooldown_ms : ℕ

-- A call goes through, or 'CIRCUIT_OPEN' is thrown as a transient error.
pub data Admission : Type 0 where
  admitted refused : Admission

ensure_state : CircuitState → CircuitBreaker → ℕ → Admission × CircuitBreaker
ensure_state closed b now = (admitted, b)
ensure_state open_circuit b now =
    if leb (b.last_failure_time + b.cooldown_ms) now
    then (admitted, record b { state = half_open })
    else (refused, b)
ensure_state half_open b now = (admitted, b)

-- `now` is `Date.now()`; `elapsed >= cooldownMs`, with the subtraction on the other side.
unfoldable pub ensure_closed : CircuitBreaker → ℕ → Admission × CircuitBreaker
unfolding ensure_state
ensure_closed b now = ensure_state b.state b now

unfoldable pub record_success : CircuitBreaker → CircuitBreaker
record_success b = record b { state = closed; consecutive_failures = 0 }

fail_state : CircuitState → CircuitBreaker → CircuitBreaker
fail_state half_open b = record b { state = open_circuit }
fail_state _ b =
    if leb b.failure_threshold b.consecutive_failures then record b { state = open_circuit } else b

unfoldable pub record_failure : CircuitBreaker → ℕ → CircuitBreaker
unfolding fail_state
record_failure b now =
    fail_state b.state
      (record b { consecutive_failures = b.consecutive_failures + 1; last_failure_time = now })

unfoldable pub get_state : CircuitBreaker → CircuitState
get_state b = b.state

unfoldable pub reset : CircuitBreaker → CircuitBreaker
reset b = record b { state = closed; consecutive_failures = 0; last_failure_time = 0 }

unfoldable pub new_breaker : ℕ → ℕ → CircuitBreaker
new_breaker threshold cooldown = record {
  state = closed;
  consecutive_failures = 0;
  last_failure_time = 0;
  failure_threshold = threshold;
  cooldown_ms = cooldown;
}
