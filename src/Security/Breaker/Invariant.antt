-- ===== src/Security/Breaker/Invariant.antt =====
-- What holds of a circuit breaker between two calls (internal/security/circuit.go).
use sgate.Prelude.{ℕ, ◌≡◌, String, List, [], ◌∷◌, arith}
use sgate.Prelude.Int.{ℤ, pos, ◌<ℤ◌, ◌≤ℤ◌}
use sgate.Security.Breaker.{
  state_closed, CircuitBreaker, new_circuit_breaker, Call, allows, succeeds, fails, resets, step,
  run,
}

-- The bound under which `int32(threshold)` is the threshold.
abbrev pub int32_max : ℤ
int32_max = pos 2147483647

pub record IsValid (cb : CircuitBreaker) : Type 0 where
  pub failures_needed : pos 0 <ℤ cb.failure_threshold
  pub failures_fit : cb.failure_threshold ≤ℤ int32_max
  pub successes_needed : pos 0 <ℤ cb.success_threshold
  pub successes_fit : cb.success_threshold ≤ℤ int32_max
  pub waits : pos 0 <ℤ cb.timeout
  pub failures_counted : pos 0 ≤ℤ cb.failure_count
  pub failures_bounded : cb.failure_count ≤ℤ cb.failure_threshold
  pub closed_below : cb.state ≡ state_closed → cb.failure_count <ℤ cb.failure_threshold
  pub successes_counted : pos 0 ≤ℤ cb.success_count
  pub successes_bounded : cb.success_count <ℤ cb.success_threshold

pub new-IsValid :
    (name : String) (failures successes timeout : ℤ) (now : ℕ)
    → failures ≤ℤ int32_max
    → successes ≤ℤ int32_max
    → IsValid (new_circuit_breaker name failures successes timeout now)
unfolding new_circuit_breaker
new-IsValid name failures successes timeout now f s = ground arith

pub step-IsValid : (cb : CircuitBreaker) (c : ℕ × Call) → IsValid cb → IsValid (step cb c)
unfolding step
step-IsValid cb (now, allows) v = ground arith
step-IsValid cb (now, succeeds) v = ground arith
step-IsValid cb (now, fails) v = ground arith
step-IsValid cb (now, resets) v = ground arith

pub run-IsValid : (cb : CircuitBreaker) (cs : List (ℕ × Call)) → IsValid cb → IsValid (run cb cs)
unfolding run
run-IsValid cb [] v = v
run-IsValid cb (c ∷ cs) v = run-IsValid (step cb c) cs (step-IsValid cb c v)
