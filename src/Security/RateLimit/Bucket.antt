-- ===== src/Security/RateLimit/Bucket.antt =====
-- internal/security/ratelimit.go: one token bucket, one call at a time.
-- `now` is the reading of time.Now().UnixNano(); the other fields are int64 and wrap around.
use sgate.Prelude.{ℕ, ◌-◌, ◌/◌, Bool, true, false, if◌then◌else◌}
use sgate.Prelude.Int.{ℤ, pos, pos_part, ◌+ℤ◌, ◌-ℤ◌, ◌*ℤ◌, sub_ℕ, ltb_ℤ, leb_ℤ, wrap64}

pub record TokenBucket : Type 0 where
  pub tokens : ℤ
  pub last_update : ℕ
  pub max_tokens : ℤ
  pub burst_tokens : ℤ
  pub refresh_nanos : ℤ

abbrev pub min_ℤ : ℤ → ℤ → ℤ
min_ℤ a b = if leb_ℤ a b then a else b

-- `int64(elapsed/refresh) * maxTokens`, at a positive `refresh` that `elapsed` is past.
unfoldable pub refill_amount : TokenBucket → ℕ → ℤ
refill_amount tb now =
    wrap64 (pos ((now - tb.last_update) / pos_part tb.refresh_nanos) *ℤ tb.max_tokens)

-- The refill: once more than `refresh` has passed, the time is stamped and whole periods are
-- credited, up to the burst.
unfoldable pub refill : TokenBucket → ℕ → TokenBucket
refill tb now =
    if ltb_ℤ tb.refresh_nanos (sub_ℕ now tb.last_update)
    then record tb {
      tokens =
          if ltb_ℤ (pos 0) (refill_amount tb now)
          then min_ℤ (wrap64 (tb.tokens +ℤ refill_amount tb now)) tb.burst_tokens
          else tb.tokens;
      last_update = now;
    }
    else tb

unfoldable pub take_token : TokenBucket → TokenBucket × Bool
take_token tb =
    if leb_ℤ tb.tokens (pos 0)
    then (tb, false)
    else (record tb { tokens = tb.tokens -ℤ pos 1 }, true)

unfoldable pub try_consume : TokenBucket → ℕ → TokenBucket × Bool
try_consume tb now =
    if leb_ℤ tb.refresh_nanos (pos 0)
    then (tb, ltb_ℤ (pos 0) tb.tokens)
    else take_token (refill tb now)

-- time.Second
abbrev pub second : ℤ
second = pos 1000000000

abbrev pub refresh_or_second : ℤ → ℤ
refresh_or_second token_refresh = if leb_ℤ token_refresh (pos 0) then second else token_refresh

unfoldable pub update_params : TokenBucket → ℤ → ℤ → ℤ → TokenBucket
update_params tb max_tokens burst_tokens token_refresh = record tb {
  tokens = if leb_ℤ tb.tokens burst_tokens then tb.tokens else burst_tokens;
  max_tokens = max_tokens;
  burst_tokens = burst_tokens;
  refresh_nanos = refresh_or_second token_refresh;
}

unfoldable pub new_token_bucket : ℤ → ℤ → ℤ → ℕ → TokenBucket
new_token_bucket max_tokens burst_tokens token_refresh now = record {
  tokens = max_tokens;
  last_update = now;
  max_tokens = max_tokens;
  burst_tokens = burst_tokens;
  refresh_nanos = refresh_or_second token_refresh;
}
