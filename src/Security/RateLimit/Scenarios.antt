-- ===== src/Security/RateLimit/Scenarios.antt =====
-- The theorems on rate limiting (internal/security/ratelimit.go), applied to concrete limiters.
use mathlib.Core.List.{Memᴰ}
use sgate.Prelude.{
  map, ℕ, ◌+◌, ◌*◌, ◌≤◌, ◌≡◌, refl, String, true, false, not, [], ◌∷◌, none, if◌then◌else◌, arith,
  string_eq,
}
use sgate.Prelude.Int.{pos, ◌-ℤ◌, leb_ℤ}
use sgate.Prelude.Maps.{lookup}
use sgate.Security.RateLimit.Bucket.{TokenBucket}
use sgate.Security.RateLimit.Rate.{Holds, consume_all, rate_bound}
use sgate.Security.RateLimit.Limiter.{RateLimiter, empty_shard, dim_of, count_of, dim_config}
use sgate.Security.RateLimit.Limiter.Settings.{new_rate_limiter}
use sgate.Security.RateLimit.Limiter.Table.{shard_index, shard_for, allow, get_tokens}
use sgate.Security.RateLimit.Limiter.Calls.{
  TablesCounted, allows, clears_dimension, table_run, table_run-TablesCounted, new-TablesCounted,
}
use sgate.Security.RateLimit.Limiter.Multi.{ask_multi, drained_key_locked, allow_new_key}

-- Three tokens, two more for each 10 nanoseconds, at most 5 kept.
abbrev small_bucket : TokenBucket
small_bucket = record {
  tokens = pos 3;
  last_update = 0;
  max_tokens = pos 2;
  burst_tokens = pos 5;
  refresh_nanos = pos 10;
}

small_bucket-Holds : Holds small_bucket 3 2 5 10
small_bucket-Holds = record { tokens_are = refl; max_is = refl; burst_is = refl; refresh_is = refl }

rate_bound_example :
    10 * (consume_all small_bucket (1 ∷ 2 ∷ 3 ∷ 4 ∷ 25 ∷ 26 ∷ [])).1 + 2 * 0 ≤ 10 * 3 + 2 * 30
rate_bound_example =
    rate_bound small_bucket (1 ∷ 2 ∷ 3 ∷ 4 ∷ 25 ∷ 26 ∷ []) 3 2 5 10 30 small_bucket-Holds
      (omega arith) (omega arith) (ground arith) (omega arith)

abbrev one_hash : String → ℕ
one_hash s = 1

abbrev new_limiter : RateLimiter
new_limiter = new_rate_limiter (pos 100) (pos 1000000000) 0

table_run-TablesCounted_example : TablesCounted 1562 (
    table_run one_hash new_limiter
      (allows "ip" "10.0.0.1" 1 ∷ allows "ip" "10.0.0.2" 2 ∷ clears_dimension "ip" ∷ []))
table_run-TablesCounted_example =
    table_run-TablesCounted one_hash 1562 new_limiter
      (allows "ip" "10.0.0.1" 1 ∷ allows "ip" "10.0.0.2" 2 ∷ clears_dimension "ip" ∷ [])
      (omega arith) (new-TablesCounted (pos 100) (pos 1000000000) 0)

-- A limiter whose one bucket, the address 10.0.0.1's, is empty since time 0.
abbrev drained_bucket : TokenBucket
drained_bucket = record {
  tokens = pos 0;
  last_update = 0;
  max_tokens = pos 2;
  burst_tokens = pos 5;
  refresh_nanos = pos 10;
}

abbrev drained_limiter : RateLimiter
drained_limiter = record {
  shards =
      empty_shard
      ∷ record {
        dims = ("ip", ("10.0.0.1", drained_bucket) ∷ []) ∷ [];
        counts = ("ip", pos 1) ∷ [];
      }
      ∷ [];
  global_bucket = none;
  token_refresh = pos 10;
  max_tokens = pos 2;
  burst_tokens = pos 5;
  route_max_tokens = pos 0;
  global_max_tokens = pos 0;
  dimension_configs = [];
  max_buckets_per_shard = pos 1;
}

drained_key_locked_example :
    let asked = ask_multi one_hash drained_limiter (("ip", "10.0.0.1") ∷ []) (500 ∷ 900 ∷ []) in
    (asked ≡ (drained_limiter, map (λ (t : ℕ). false) (500 ∷ 900 ∷ [])))
    × ((allow one_hash asked.0 "ip" "10.0.0.1" 1000).1 ≡ true)
unfolding dim_of shard_index lookup
drained_key_locked_example =
    drained_key_locked one_hash drained_limiter (("ip", "10.0.0.1") ∷ []) "ip" "10.0.0.1"
      drained_bucket (500 ∷ 900 ∷ []) 1000 2 5 10 (Memᴰ.head refl) refl
      (record { tokens_are = refl; max_is = refl; burst_is = refl; refresh_is = refl })
      (omega arith) (omega arith) (omega arith) (omega arith) (omega arith)

allow_new_key_example :
    let full = leb_ℤ (pos 1) (count_of (shard_for one_hash drained_limiter "ip" "10.0.0.2") "ip") in
    let r = allow one_hash drained_limiter "ip" "10.0.0.2" 1000 in
    (r.1 ≡ not full)
    × (get_tokens one_hash r.0 "ip" "10.0.0.2" ≡ (
        if full
        then get_tokens one_hash drained_limiter "ip" "10.0.0.2"
        else (dim_config drained_limiter "ip").max_tokens -ℤ pos 1))
unfolding dim_of shard_index lookup dim_config
allow_new_key_example =
    allow_new_key one_hash drained_limiter "ip" "10.0.0.2" 1000 refl (omega arith) (omega arith)
