-- ===== src/Security/Breaker/Trips.antt =====
-- When a circuit breaker opens, how long it refuses, and how it closes again
-- (internal/security/circuit.go).
use sgate.Prelude.{
  ℕ, suc, ◌+◌, ◌≤◌, ◌<◌, ◌≡◌, ◌≢◌, refl, sym, subst, ◌∙◌, true, false, List, [], ◌∷◌, arith, All,
  length, map,
}
use sgate.Prelude.Int.{ℤ, pos, ◌≤ℤ◌, ◌+ℤ◌, wrap64}
use sgate.Security.Breaker.{
  state_closed, state_open, state_half_open, CircuitBreaker, Call, allows, succeeds, fails, resets,
  allow, record_success, record_failure, timed_out, step, run,
}
use sgate.Security.Breaker.Invariant.{IsValid, step-IsValid}

abbrev pub failures : List ℕ → List (ℕ × Call)
failures = map (λ t. (t, fails))

abbrev pub successes : List ℕ → List (ℕ × Call)
successes = map (λ t. (t, succeeds))

-- One failure of a closed breaker that has room for more.
fail_below :
    (cb : CircuitBreaker) (now n t : ℕ)
    → IsValid cb
    → cb.state ≡ state_closed
    → cb.failure_count ≡ pos n
    → cb.failure_threshold ≡ pos t
    → suc n < t
    → (record_failure cb now).state ≡ state_closed
      × ((record_failure cb now).failure_count ≡ pos (suc n))
      × ((record_failure cb now).failure_threshold ≡ pos t)
unfolding record_failure
fail_below cb now n t v s c h lt = ground arith

fail_last :
    (cb : CircuitBreaker) (now n t : ℕ)
    → IsValid cb
    → cb.state ≡ state_closed
    → cb.failure_count ≡ pos n
    → cb.failure_threshold ≡ pos t
    → suc n ≡ t
    → ((record_failure cb now).state ≡ state_open)
      × ((record_failure cb now).last_failure_time ≡ now)
      × ((record_failure cb now).tripped_count ≡ wrap64 (cb.tripped_count +ℤ pos 1))
unfolding record_failure
fail_last cb now n t v s c h e = ground arith

-- Below the threshold the breaker stays closed, and the failure that reaches it opens it.
counting_failures :
    (cb : CircuitBreaker) (ts : List ℕ) (last n t : ℕ)
    → IsValid cb
    → cb.state ≡ state_closed
    → cb.failure_count ≡ pos n
    → cb.failure_threshold ≡ pos t
    → n + length ts + 1 ≡ t
    → ((run cb (failures ts)).state ≡ state_closed)
      × ((record_failure (run cb (failures ts)) last).state ≡ state_open)
      × ((record_failure (run cb (failures ts)) last).last_failure_time ≡ last)
unfolding run step
counting_failures cb [] last n t v s c h e =
    let (opened, stamped, _) = fail_last cb last n t v s c h (omega arith) in (s, opened, stamped)
counting_failures cb (x ∷ ts) last n t v s c h e =
    let (s', c', h') = fail_below cb x n t v s c h (omega arith) in
    counting_failures (record_failure cb x) ts last (suc n) t (step-IsValid cb (x, fails) v) s' c'
      h' (omega arith)

-- From a valid closed breaker with no failure counted and threshold `t`: after any `t - 1`
-- failures in a row it is still closed, and the next failure opens it and stamps its time.
pub trips_at_threshold :
    (cb : CircuitBreaker) (ts : List ℕ) (last t : ℕ)
    → IsValid cb
    → cb.state ≡ state_closed
    → cb.failure_count ≡ pos 0
    → cb.failure_threshold ≡ pos t
    → length ts + 1 ≡ t
    → ((run cb (failures ts)).state ≡ state_closed)
      × ((record_failure (run cb (failures ts)) last).state ≡ state_open)
      × ((record_failure (run cb (failures ts)) last).last_failure_time ≡ last)
trips_at_threshold cb ts last t v s c h e = counting_failures cb ts last 0 t v s c h (omega arith)

-- A step of an open breaker before its time is up.
step_early :
    (cb : CircuitBreaker) (c : ℕ × Call) (start : ℕ)
    → cb.state ≡ state_open
    → start ≤ cb.last_failure_time
    → start ≤ c.0
    → pos c.0 ≤ℤ pos start +ℤ cb.timeout
    → c.1 ≢ resets
    → ((step cb c).state ≡ state_open)
      × (start ≤ (step cb c).last_failure_time)
      × ((step cb c).timeout ≡ cb.timeout)
unfolding step
step_early cb (now, allows) start s l f u r = ground arith
step_early cb (now, succeeds) start s l f u r = ground arith
step_early cb (now, fails) start s l f u r = ground arith
step_early cb (now, resets) start s l f u r = absurd (r refl)

-- A call that falls between `start` and the end of the timeout, and is no reset.
abbrev pub Within : ℕ → ℤ → ℕ × Call → Type 0
Within start timeout (now, c) = (start ≤ now) × (pos now ≤ℤ pos start +ℤ timeout) × (c ≢ resets)

blocked_from :
    (cb : CircuitBreaker) (cs : List (ℕ × Call)) (start now : ℕ)
    → cb.state ≡ state_open
    → start ≤ cb.last_failure_time
    → All (Within start cb.timeout) cs
    → start ≤ now
    → pos now ≤ℤ pos start +ℤ cb.timeout
    → ((run cb cs).state ≡ state_open) × ((allow (run cb cs) now).1 ≡ false)
unfolding run allow
blocked_from cb [] start now s l w f u = ground arith
blocked_from cb (c ∷ cs) start now s l w f u =
    let (s', l', t') = step_early cb c start s l w.0.0 w.0.1 w.0.2 in
    blocked_from (step cb c) cs start now s' l' (subst (λ t. All (Within start t) cs) (sym t') w.1)
      f (subst (λ t. pos now ≤ℤ pos start +ℤ t) (sym t') u)

-- An open breaker refuses every request that comes no later than its timeout after its last failure,
-- whatever mix of requests, successes and failures (but no reset) came in between.
pub open_blocks :
    (cb : CircuitBreaker) (cs : List (ℕ × Call)) (now : ℕ)
    → cb.state ≡ state_open
    → All (Within cb.last_failure_time cb.timeout) cs
    → cb.last_failure_time ≤ now
    → pos now ≤ℤ pos cb.last_failure_time +ℤ cb.timeout
    → ((run cb cs).state ≡ state_open) × ((allow (run cb cs) now).1 ≡ false)
open_blocks cb cs now s w f u = blocked_from cb cs cb.last_failure_time now s (omega arith) w f u

success_below :
    (cb : CircuitBreaker) (n t : ℕ)
    → IsValid cb
    → cb.state ≡ state_half_open
    → cb.success_count ≡ pos n
    → cb.success_threshold ≡ pos t
    → suc n < t
    → ((record_success cb).state ≡ state_half_open)
      × ((record_success cb).success_count ≡ pos (suc n))
      × ((record_success cb).success_threshold ≡ pos t)
unfolding record_success
success_below cb n t v s c h lt = ground arith

success_last :
    (cb : CircuitBreaker) (n t : ℕ)
    → IsValid cb
    → cb.state ≡ state_half_open
    → cb.success_count ≡ pos n
    → cb.success_threshold ≡ pos t
    → suc n ≡ t
    → ((record_success cb).state ≡ state_closed) × ((record_success cb).failure_count ≡ pos 0)
unfolding record_success
success_last cb n t v s c h lt = ground arith

counting_successes :
    (cb : CircuitBreaker) (ts : List ℕ) (n t : ℕ)
    → IsValid cb
    → cb.state ≡ state_half_open
    → cb.success_count ≡ pos n
    → cb.success_threshold ≡ pos t
    → n + length ts + 1 ≡ t
    → ((run cb (successes ts)).state ≡ state_half_open)
      × ((record_success (run cb (successes ts))).state ≡ state_closed)
      × ((record_success (run cb (successes ts))).failure_count ≡ pos 0)
unfolding run step
counting_successes cb [] n t v s c h e =
    let (closed, cleared) = success_last cb n t v s c h (omega arith) in (s, closed, cleared)
counting_successes cb (x ∷ ts) n t v s c h e =
    let (s', c', h') = success_below cb n t v s c h (omega arith) in
    counting_successes (record_success cb) ts (suc n) t (step-IsValid cb (x, succeeds) v) s' c' h'
      (omega arith)

-- The first request after an open breaker's timeout passes and puts it on probation: it stays
-- half-open for `t - 1` successes, and the success that reaches the threshold `t` closes it with
-- its failures forgotten.
pub recovers :
    (cb : CircuitBreaker) (now : ℕ) (ts : List ℕ) (t : ℕ)
    → IsValid cb
    → cb.state ≡ state_open
    → timed_out cb now ≡ true
    → cb.success_threshold ≡ pos t
    → length ts + 1 ≡ t
    → let probe = allow cb now in
      (probe.1 ≡ true)
      × ((run probe.0 (successes ts)).state ≡ state_half_open)
      × ((record_success (run probe.0 (successes ts))).state ≡ state_closed)
      × ((record_success (run probe.0 (successes ts))).failure_count ≡ pos 0)
unfolding allow step
recovers cb now ts t v s late h e =
    let (passed, half, zeroed, kept) = probe_of cb now v s late in
    let (a, b, c) =
      counting_successes (allow cb now).0 ts 0 t (step-IsValid cb (now, allows) v) half zeroed
        (kept ∙ h) (omega arith) in
    (passed, a, b, c)
  where
    probe_of :
        (cb : CircuitBreaker) (now : ℕ)
        → IsValid cb
        → cb.state ≡ state_open
        → timed_out cb now ≡ true
        → ((allow cb now).1 ≡ true)
          × ((allow cb now).0.state ≡ state_half_open)
          × ((allow cb now).0.success_count ≡ pos 0)
          × ((allow cb now).0.success_threshold ≡ cb.success_threshold)
    probe_of cb now v s late = ground arith
