-- ===== src/Security/RateLimit/Rate.antt =====
-- How many requests a token bucket can let through (internal/security/ratelimit.go).
use sgate.Prelude.{
  ℕ, zero, suc, ◌+◌, ◌-◌, ◌*◌, ◌/◌, ◌<◌, ◌≤◌, ◌≡◌, List, [], ◌∷◌, if◌then◌else◌, All, arith, ltb,
  leb, lt→ltb,
}
use sgate.Prelude.Int.{pos, wrap64_small}
use sgate.Security.RateLimit.Bucket.{TokenBucket, refill_amount, refill, take_token, try_consume}
use native.Mathlib.Nat.{
  div-mul-le_self, mul-le-mul_left, mul-le-mul_right, lt-mul-div-succ, mul-div-le,
  lt_of_mul-lt-mul_left,
}

-- A bucket whose int64 values are the natural numbers `k`, `m`, `b` and `r`.
pub record Holds (tb : TokenBucket) (k m b r : ℕ) : Type 0 where
  pub tokens_are : tb.tokens ≡ pos k
  pub max_is : tb.max_tokens ≡ pos m
  pub burst_is : tb.burst_tokens ≡ pos b
  pub refresh_is : tb.refresh_nanos ≡ pos r

-- The bucket as the configuration describes it, on numbers that do not wrap.
unfoldable pub refilled : ℕ → ℕ → ℕ → ℕ → ℕ → ℕ → ℕ
refilled k m b r last now =
    if ltb (last + r) now
    then if ltb 0 ((now - last) / r * m)
      then if leb (k + (now - last) / r * m) b then k + (now - last) / r * m else b
      else k
    else k

unfoldable pub stamped : ℕ → ℕ → ℕ → ℕ
stamped r last now = if ltb (last + r) now then now else last

amount-eq :
    (tb : TokenBucket) (now k m b r : ℕ)
    → Holds tb k m b r
    → (now - tb.last_update) / r * m < 9223372036854775808
    → refill_amount tb now ≡ pos ((now - tb.last_update) / r * m)
unfolding refill_amount
amount-eq tb now k m b r h lt =
    rw (h.max_is, h.refresh_is) (ground (arith, wrap64_small ((now - tb.last_update) / r * m) lt))

refill-Holds :
    (tb : TokenBucket) (now k m b r : ℕ)
    → Holds tb k m b r
    → k + (now - tb.last_update) / r * m < 9223372036854775808
    → Holds (refill tb now) (refilled k m b r tb.last_update now) m b r
      × ((refill tb now).last_update ≡ stamped r tb.last_update now)
unfolding refill refilled stamped
refill-Holds tb now k m b r h lt = ground (
  arith,
  amount-eq tb now k m b r h (omega arith),
  wrap64_small (k + (now - tb.last_update) / r * m) lt,
)

pub try_consume-Holds :
    (tb : TokenBucket) (now k m b r : ℕ)
    → Holds tb k m b r
    → 0 < r
    → k + (now - tb.last_update) / r * m < 9223372036854775808
    → let k' = refilled k m b r tb.last_update now in
      Holds (try_consume tb now).0 (k' - 1) m b r
      × ((try_consume tb now).0.last_update ≡ stamped r tb.last_update now)
      × ((try_consume tb now).1 ≡ ltb 0 k')
unfolding try_consume take_token
try_consume-Holds tb now k m b r h p lt = ground (arith, refill-Holds tb now k m b r h lt)

credit-le : (k m r last e q : ℕ) → q * r ≤ e → r * (k + q * m) + m * last ≤ r * k + m * (last + e)
credit-le k m r last e q h = omega (arith, mul-le-mul_left m h)

-- Tokens gained, in units of `1 / r`, never exceed `m` for each nanosecond that was stamped.
refilled-bound :
    (k m b r last now : ℕ)
    → r * refilled k m b r last now + m * last ≤ r * k + m * stamped r last now
unfolding refilled stamped
refilled-bound k m b r last now = ground (
  arith,
  credit-le k m r last (now - last) ((now - last) / r) (div-mul-le_self (now - last) r),
  mul-le-mul_left {m = b} {n = k + (now - last) / r * m} r,
  mul-le-mul_left {m = last} {n = now} m,
)

refilled-le : (k m b r last now K : ℕ) → k ≤ K → b ≤ K → refilled k m b r last now ≤ K
unfolding refilled
refilled-le k m b r last now K h h' = ground arith

stamped-le : (r last now t : ℕ) → last ≤ t → now ≤ t → stamped r last now ≤ t
unfolding stamped
stamped-le r last now t h h' = ground arith

div_mono : (a t r : ℕ) → 0 < r → a ≤ t → a / r ≤ t / r
div_mono a t r p h = omega (
  arith,
  lt_of_mul-lt-mul_left r {m = a / r} {n = t / r + 1}
      (omega (arith, mul-div-le a r, lt-mul-div-succ t p)),
)

-- Requests at the given times, in any order: the bucket afterwards, and how many were let through.
unfoldable pub consume_all : TokenBucket → List ℕ → TokenBucket × ℕ
consume_all tb [] = (tb, 0)
consume_all tb (now ∷ times) =
    let (tb', passed) = try_consume tb now in
    let (last, n) = consume_all tb' times in (last, if passed then suc n else n)

spend-le :
    (r m k k' last l t n : ℕ)
    → r * k' + m * last ≤ r * k + m * l
    → r * n + m * l ≤ r * (k' - 1) + m * t
    → r * (if ltb 0 k' then suc n else n) + m * last ≤ r * k + m * t
spend-le r m k zero last l t n h h' = omega arith
spend-le r m k (suc k') last l t n h h' =
    let one_less : suc k' - 1 ≡ k' = omega arith in
    let rest : r * n + m * l ≤ r * k' + m * t = rw one_less at h' in
    let spent : r * suc n + m * last ≤ r * k + m * t = omega arith in
    rw (lt→ltb 0 (suc k') (omega arith)) spent

consume_all-bound :
    (tb : TokenBucket) (times : List ℕ) (k m b r K t : ℕ)
    → Holds tb k m b r
    → 0 < r
    → k ≤ K
    → b ≤ K
    → K + t / r * m < 9223372036854775808
    → All (λ now. now ≤ t) times
    → tb.last_update ≤ t
    → r * (consume_all tb times).1 + m * tb.last_update ≤ r * k + m * t
unfolding consume_all
consume_all-bound tb [] k m b r K t h p hk hb fits early l = omega (arith, mul-le-mul_left m l)
consume_all-bound tb (now ∷ times) k m b r K t h p hk hb fits early l =
    let k' = refilled k m b r tb.last_update now in
    let (held, at, passed) = try_consume-Holds tb now k m b r h p (
      omega (
        arith,
        mul-le-mul_right m (div_mono (now - tb.last_update) t r p (omega (arith, early.0))),
      )) in
    let rest =
      consume_all-bound (try_consume tb now).0 times (k' - 1) m b r K t held p
        (omega (arith, refilled-le k m b r tb.last_update now K hk hb)) hb fits early.1
        (rw at (stamped-le r tb.last_update now t l early.0)) in
    rw passed (
      spend-le r m k k' tb.last_update (stamped r tb.last_update now) t _
        (refilled-bound k m b r tb.last_update now) (rw at at rest))

-- The rate limit. Take a bucket with `k` tokens, `m` tokens for each refresh of `r` nanoseconds and
-- burst `b`, and any requests, in any order of their clock readings, all of them at most `t`, where
-- no int64 wraps. Then `r` times the number let through is at most `r * k` plus `m` times the
-- nanoseconds from the bucket's last refill to `t`: at most `k` at once and `m` per refresh after.
pub rate_bound :
    (tb : TokenBucket) (times : List ℕ) (k m b r t : ℕ)
    → Holds tb k m b r
    → 0 < r
    → k + b + t / r * m < 9223372036854775808
    → All (λ now. now ≤ t) times
    → tb.last_update ≤ t
    → r * (consume_all tb times).1 + m * tb.last_update ≤ r * k + m * t
rate_bound tb times k m b r t h p fits early l =
    consume_all-bound tb times k m b r (k + b) t h p (omega arith) (omega arith) fits early l
