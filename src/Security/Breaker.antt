-- ===== src/Security/Breaker.antt =====
-- internal/security/circuit.go: the circuit breaker, one call at a time, and its manager.
-- Clock readings are natural numbers of nanoseconds and arguments of each call. The int32 and int64
-- counters wrap around. A pointer that the manager hands out is the entry of its table.
pub mod Invariant
pub mod Trips
pub mod Registry
mod Scenarios
use sgate.Prelude.{
  ℕ, ◌≡◌, String, Bool, true, false, List, [], ◌∷◌, Option, none, some, if◌then◌else◌,
}
use sgate.Prelude.Int.{ℤ, pos, ◌+ℤ◌, sub_ℕ, ltb_ℤ, leb_ℤ, wrap32, wrap64}

pub data CircuitBreakerState : Type 0 where
  state_closed state_open state_half_open : CircuitBreakerState

pub record CircuitBreaker : Type 0 where
  pub state : CircuitBreakerState
  pub failure_threshold : ℤ
  pub success_threshold : ℤ
  pub timeout : ℤ
  pub failure_count : ℤ  -- int32
  pub success_count : ℤ  -- int32
  pub last_failure_time : ℕ
  pub tripped_count : ℤ  -- int64
  pub name : String

abbrev pub positive_or : ℤ → ℤ → ℤ
positive_or value default = if leb_ℤ value (pos 0) then default else value

-- 30 * time.Second
abbrev pub default_timeout : ℤ
default_timeout = pos 30000000000

unfoldable pub new_circuit_breaker : String → ℤ → ℤ → ℤ → ℕ → CircuitBreaker
new_circuit_breaker name failures successes timeout now = record {
  state = state_closed;
  failure_threshold = positive_or failures (pos 5);
  success_threshold = positive_or successes (pos 3);
  timeout = positive_or timeout default_timeout;
  failure_count = pos 0;
  success_count = pos 0;
  last_failure_time = now;
  tripped_count = pos 0;
  name = name;
}

-- time.Since(lastFailure) > cb.timeout
abbrev pub timed_out : CircuitBreaker → ℕ → Bool
timed_out cb now = ltb_ℤ cb.timeout (sub_ℕ now cb.last_failure_time)

-- Run alone, the compare-and-swap of a state that was just read succeeds.
allow_in : CircuitBreakerState → CircuitBreaker → ℕ → CircuitBreaker × Bool
allow_in state_closed cb now = (cb, true)
allow_in state_open cb now =
    if timed_out cb now
    then (record cb { state = state_half_open; success_count = pos 0 }, true)
    else (cb, false)
allow_in state_half_open cb now = (cb, true)

unfoldable pub allow : CircuitBreaker → ℕ → CircuitBreaker × Bool
unfolding allow_in
allow cb now = allow_in cb.state cb now

record_success_in : CircuitBreakerState → CircuitBreaker → CircuitBreaker
unfolding wrap32
record_success_in state_closed cb = record cb { failure_count = pos 0 }
record_success_in state_half_open cb =
    let counted = wrap32 (cb.success_count +ℤ pos 1) in
    if leb_ℤ (wrap32 cb.success_threshold) counted
    then record cb { state = state_closed; failure_count = pos 0; success_count = pos 0 }
    else record cb { success_count = counted }
record_success_in state_open cb = cb

unfoldable pub record_success : CircuitBreaker → CircuitBreaker
unfolding record_success_in
record_success cb = record_success_in cb.state cb

abbrev pub trip : CircuitBreaker → CircuitBreaker
trip cb = record cb { state = state_open; tripped_count = wrap64 (cb.tripped_count +ℤ pos 1) }

record_failure_in : CircuitBreakerState → CircuitBreaker → ℕ → CircuitBreaker
unfolding wrap32 wrap64
record_failure_in state_closed cb now =
    let counted = wrap32 (cb.failure_count +ℤ pos 1) in
    let failed = record cb { failure_count = counted; last_failure_time = now } in
    if leb_ℤ (wrap32 cb.failure_threshold) counted then trip failed else failed
record_failure_in state_half_open cb now = trip (record cb { last_failure_time = now })
record_failure_in state_open cb now = record cb { last_failure_time = now }

unfoldable pub record_failure : CircuitBreaker → ℕ → CircuitBreaker
unfolding record_failure_in
record_failure cb now = record_failure_in cb.state cb now

unfoldable pub get_state_string : CircuitBreaker → String
get_state_string cb = elim cb.state [
  | state_closed ↦ "closed"
  | state_open ↦ "open"
  | state_half_open ↦ "half-open"
]

unfoldable pub reset : CircuitBreaker → ℕ → CircuitBreaker
reset cb now = record cb {
  state = state_closed;
  failure_count = pos 0;
  success_count = pos 0;
  last_failure_time = now;
}

-- A history: each call with the reading of the clock that it makes.
pub data Call : Type 0 where
  allows succeeds fails resets : Call

unfoldable pub step : CircuitBreaker → ℕ × Call → CircuitBreaker
unfolding allow record_success record_failure reset
step cb (now, allows) = (allow cb now).0
step cb (now, succeeds) = record_success cb
step cb (now, fails) = record_failure cb now
step cb (now, resets) = reset cb now

unfoldable pub run : CircuitBreaker → List (ℕ × Call) → CircuitBreaker
run cb [] = cb
run cb (c ∷ cs) = run (step cb c) cs
