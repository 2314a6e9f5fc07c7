-- ===== src/Security/RateLimit/Limiter/Multi.antt =====
-- Requests on keys that are new, and on several dimensions at once
-- (internal/security/ratelimit.go).
use mathlib.Core.List.{Memᴰ}
use sgate.Prelude.{
  not, ap, sym, subst, map, Bool, [], ◌∷◌, ℕ, ◌+◌, ◌-◌, ◌/◌, ◌*◌, ◌<◌, ◌≤◌, ◌≡◌, refl, ◌∙◌, String,
  true, false, List, none, some, if◌then◌else◌, set, length, string_eq, arith, inl, inr, Bool-cases,
  lt→ltb, get_or-set_self,
}
use sgate.Prelude.Int.{pos, ◌-ℤ◌, ◌<ℤ◌, leb_ℤ}
use sgate.Prelude.Maps.{lookup, insert, lookup-insert_self}
use native.Mathlib.Nat.{mul-le-mul, lt-mul-div-succ, lt_of_mul-lt-mul_left}
use sgate.Security.RateLimit.Bucket.{TokenBucket, try_consume, refill, take_token, new_token_bucket}
use sgate.Security.RateLimit.Rate.{Holds, try_consume-Holds, refilled}
use sgate.Security.RateLimit.Limiter.{
  DimensionConfig, RateShard, RateLimiter, empty_shard, dim_of, count_of, put_bucket, add_bucket,
  dim_config,
}
use sgate.Security.RateLimit.Limiter.Table.{
  allow_in_shard, peek_in_shard, shard_index, shard_for, allow, peek, peek_all, allow_multi,
  get_tokens,
}

peek_all-false :
    (hash : String → ℕ) (rl : RateLimiter) (d k : String) (ds : List (String × String))
    → Memᴰ (d, k) ds
    → peek hash rl d k ≡ false
    → peek_all hash rl ds ≡ false
unfolding peek_all
peek_all-false hash rl d k ds (Memᴰ.head e) h = ground arith
peek_all-false hash rl d k ds (Memᴰ.tail {xs = xs} m) h =
    ground (arith, peek_all-false hash rl d k xs m h)

-- A bucket made just now holds its tokens but one.
fresh_consume :
    (cfg : DimensionConfig) (now : ℕ)
    → pos 0 <ℤ cfg.max_tokens
    → let r =
        try_consume (new_token_bucket cfg.max_tokens cfg.burst_tokens cfg.token_refresh now) now in
      (r.1 ≡ true) × (r.0.tokens ≡ cfg.max_tokens -ℤ pos 1)
unfolding try_consume new_token_bucket refill take_token
fresh_consume cfg now h = ground arith

div-pos : (e r : ℕ) → 0 < r → r ≤ e → 0 < e / r
div-pos e r hr h = lt_of_mul-lt-mul_left r (omega (arith, lt-mul-div-succ e hr))

mul-pos : (a b : ℕ) → 0 < a → 0 < b → 0 < a * b
mul-pos a b ha hb = mul-le-mul ha hb

refilled-pos :
    (m b r last now : ℕ) → 0 < m → 0 < b → 0 < r → last + r < now → 0 < refilled 0 m b r last now
unfolding refilled
refilled-pos m b r last now hm hb hr h =
    let period : 0 < (now - last) / r = div-pos (now - last) r hr (omega arith) in
    let some_tokens : 0 < (now - last) / r * m = mul-pos ((now - last) / r) m period hm in
    ground arith

-- AllowMulti for the same dimensions at several times, with the answers.
unfoldable pub ask_multi :
    (String → ℕ) → RateLimiter → List (String × String) → List ℕ → RateLimiter × List Bool
ask_multi hash rl ds [] = (rl, [])
ask_multi hash rl ds (now ∷ nows) =
    let (rl', passes) = allow_multi hash rl ds now in
    let (rl'', answers) = ask_multi hash rl' ds nows in (rl'', passes ∷ answers)

ask_multi-shut :
    (hash : String → ℕ) (rl : RateLimiter) (ds : List (String × String)) (nows : List ℕ)
    → peek_all hash rl ds ≡ false
    → ask_multi hash rl ds nows ≡ (rl, map (λ (now : ℕ). false) nows)
unfolding ask_multi allow_multi
ask_multi-shut hash rl ds [] shut = refl
ask_multi-shut hash rl ds (now ∷ nows) shut =
    rw (shut, allow_multi)
      (ap (λ (r : RateLimiter × List Bool). (r.0, false ∷ r.1))
        (ask_multi-shut hash rl ds nows shut))

-- The lock-out. While a bucket with no token left is the key's, requests on several dimensions that
-- name the key are all refused and change nothing, however many come and whenever they do: AllowMulti
-- looks before it refills. At a time more than one refresh after the bucket's last refill, where no
-- int64 wraps, the same key alone passes, even after those requests. Other calls between them, as
-- the clean-up that deletes the bucket, are not spoken of.
pub drained_key_locked :
    (hash : String → ℕ) (rl : RateLimiter) (ds : List (String × String)) (d k : String)
    (tb : TokenBucket) (nows : List ℕ) (now m b r : ℕ)
    → Memᴰ (d, k) ds
    → lookup k (dim_of (shard_for hash rl d k) d) ≡ some tb
    → Holds tb 0 m b r
    → 0 < m
    → 0 < b
    → 0 < r
    → (now - tb.last_update) / r * m < 9223372036854775808
    → tb.last_update + r < now
    → (ask_multi hash rl ds nows ≡ (rl, map (λ (t : ℕ). false) nows))
      × ((allow hash (ask_multi hash rl ds nows).0 d k now).1 ≡ true)
unfolding allow allow_in_shard peek peek_in_shard
drained_key_locked hash rl ds d k tb nows now m b r mem e h hm hb hr small late =
    let shut : peek hash rl d k ≡ false = rw (e, peek_in_shard) (rw h.tokens_are refl) in
    let locked = ask_multi-shut hash rl ds nows (peek_all-false hash rl d k ds mem shut) in
    let (_, _, passed) = try_consume-Holds tb now 0 m b r h hr (omega arith) in
    let alone : (allow hash rl d k now).1 ≡ true =
      rw (e, allow_in_shard)
        (passed ∙ lt→ltb _ _ (refilled-pos m b r tb.last_update now hm hb hr late)) in
    (
      locked,
      subst (λ (a : RateLimiter × List Bool). (allow hash a.0 d k now).1 ≡ true) (sym locked) alone,
    )

shard_for-set :
    (hash : String → ℕ) (rl : RateLimiter) (d k : String) (sh : RateShard)
    → shard_index hash d k < length rl.shards
    → shard_for hash (record rl { shards = set rl.shards (shard_index hash d k) sh }) d k ≡ sh
shard_for-set hash rl d k sh inside =
    get_or-set_self rl.shards (shard_index hash d k) sh empty_shard inside

lookup-add_bucket :
    (sh : RateShard) (d k : String) (tb : TokenBucket)
    → lookup k (dim_of (add_bucket sh d k tb) d) ≡ some tb
unfolding dim_of add_bucket put_bucket
lookup-add_bucket sh d k tb =
    rw (lookup-insert_self d (insert k tb (dim_of sh d)) sh.dims)
      (lookup-insert_self k tb (dim_of sh d))

tokens_of_added :
    (hash : String → ℕ) (rl : RateLimiter) (d k : String) (sh : RateShard) (tb : TokenBucket)
    → shard_index hash d k < length rl.shards
    → get_tokens hash
        (record rl { shards = set rl.shards (shard_index hash d k) (add_bucket sh d k tb) })
        d
        k
      ≡ tb.tokens
unfolding get_tokens
tokens_of_added hash rl d k sh tb inside =
    let kept = shard_for-set hash rl d k (add_bucket sh d k tb) inside in
    ground (arith, kept, lookup-add_bucket sh d k tb)

kept_tokens :
    (hash : String → ℕ) (rl : RateLimiter) (d k : String)
    → shard_index hash d k < length rl.shards
    → get_tokens hash
        (record rl { shards = set rl.shards (shard_index hash d k) (shard_for hash rl d k) })
        d
        k
      ≡ get_tokens hash rl d k
unfolding get_tokens
kept_tokens hash rl d k inside =
    let kept = shard_for-set hash rl d k (shard_for hash rl d k) inside in ground (arith, kept)

-- A request on a key with no bucket is refused exactly where its dimension's count has reached the
-- shard's limit, and the key's tokens then stay what they were. Where it passes, the new bucket holds
-- one token less than configured. The dimension's configured tokens are positive.
pub allow_new_key :
    (hash : String → ℕ) (rl : RateLimiter) (d k : String) (now : ℕ)
    → lookup k (dim_of (shard_for hash rl d k) d) ≡ none
    → shard_index hash d k < length rl.shards
    → pos 0 <ℤ (dim_config rl d).max_tokens
    → let full = leb_ℤ rl.max_buckets_per_shard (count_of (shard_for hash rl d k) d) in
      let r = allow hash rl d k now in
      (r.1 ≡ not full)
      × (get_tokens hash r.0 d k
          ≡ (if full then get_tokens hash rl d k else (dim_config rl d).max_tokens -ℤ pos 1))
unfolding allow allow_in_shard count_of get_tokens
allow_new_key hash rl d k now e inside p =
    elim (Bool-cases (leb_ℤ rl.max_buckets_per_shard (count_of (shard_for hash rl d k) d))) [
      | inl full ↦ rw (e, allow_in_shard) (rw full (refl, kept_tokens hash rl d k inside))
      | inr room ↦
          rw (e, allow_in_shard)
            (rw room (
              (fresh_consume (dim_config rl d) now p).0,
              tokens_of_added hash rl d k (shard_for hash rl d k) _ inside
                  ∙ (fresh_consume (dim_config rl d) now p).1,
            ))
    ]
