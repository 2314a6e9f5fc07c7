-- ===== src/Security/Breaker/Scenarios.antt =====
-- The theorems on circuit breakers (internal/security/circuit.go), applied to concrete ones.
use sgate.Prelude.{ℕ, ◌≡◌, refl, true, false, List, [], ◌∷◌, arith, string_eq}
use sgate.Prelude.Int.{pos}
use sgate.Security.Breaker.{
  CircuitBreaker, state_closed, state_open, state_half_open, Call, allows, succeeds, fails, allow,
  record_success, record_failure, run,
}
use sgate.Security.Breaker.Invariant.{IsValid, run-IsValid}
use sgate.Security.Breaker.Trips.{failures, successes, trips_at_threshold, open_blocks, recovers}

-- Two failures open it, two successes close it, and it waits 1000 nanoseconds.
abbrev small_breaker : CircuitBreaker
small_breaker = record {
  state = state_closed;
  failure_threshold = pos 2;
  success_threshold = pos 2;
  timeout = pos 1000;
  failure_count = pos 0;
  success_count = pos 0;
  last_failure_time = 0;
  tripped_count = pos 0;
  name = "logic";
}

abbrev open_breaker : CircuitBreaker
open_breaker = record small_breaker {
  state = state_open;
  failure_count = pos 2;
  last_failure_time = 100;
}

small_breaker-IsValid : IsValid small_breaker
small_breaker-IsValid = ground arith

open_breaker-IsValid : IsValid open_breaker
open_breaker-IsValid = ground arith

abbrev history : List (ℕ × Call)
history = (5, fails) ∷ (6, fails) ∷ (7, allows) ∷ (2000, allows) ∷ (2001, succeeds) ∷ []

run-IsValid_example : IsValid (run small_breaker history)
run-IsValid_example = run-IsValid small_breaker history small_breaker-IsValid

trips_at_threshold_example :
    ((run small_breaker (failures (5 ∷ []))).state ≡ state_closed)
    × ((record_failure (run small_breaker (failures (5 ∷ []))) 6).state ≡ state_open)
    × ((record_failure (run small_breaker (failures (5 ∷ []))) 6).last_failure_time ≡ 6)
trips_at_threshold_example =
    trips_at_threshold small_breaker (5 ∷ []) 6 2 small_breaker-IsValid refl refl refl refl

open_blocks_example :
    ((run open_breaker ((200, allows) ∷ (300, fails) ∷ [])).state ≡ state_open)
    × ((allow (run open_breaker ((200, allows) ∷ (300, fails) ∷ [])) 1100).1 ≡ false)
open_blocks_example =
    open_blocks open_breaker ((200, allows) ∷ (300, fails) ∷ []) 1100 refl (ground arith)
      (omega arith) (omega arith)

recovers_example :
    let probe = allow open_breaker 1101 in
    (probe.1 ≡ true)
    × ((run probe.0 (successes (1200 ∷ []))).state ≡ state_half_open)
    × ((record_success (run probe.0 (successes (1200 ∷ [])))).state ≡ state_closed)
    × ((record_success (run probe.0 (successes (1200 ∷ [])))).failure_count ≡ pos 0)
recovers_example = recovers open_breaker 1101 (1200 ∷ []) 2 open_breaker-IsValid refl refl refl refl
