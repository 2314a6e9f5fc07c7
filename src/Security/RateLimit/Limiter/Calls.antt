-- ===== src/Security/RateLimit/Limiter/Calls.antt =====
-- The calls that change the tables of internal/security/ratelimit.go, and the counts after them.
use sgate.Prelude.{
  ℕ, zero, suc, ◌<◌, ◌≡◌, refl, sym, ap, ◌∙◌, String, List, [], ◌∷◌, get_or, length, string_eq,
  arith, inl, inr, Bool-cases, set-keeps, map-keeps, replicate,
}
use sgate.Prelude.Int.{ℤ, pos}
use sgate.Prelude.Maps.{Map, lookup, lookup-erase}
use sgate.Security.RateLimit.Bucket.{TokenBucket}
use sgate.Security.RateLimit.Limiter.{
  DimensionConfig, RateShard, RateLimiter, empty_shard, or_nil, dim_of, count_of, rate_shard_count,
}
use sgate.Security.RateLimit.Limiter.Table.{
  shard_index, allow, allow_each, peek_all, allow_multi, clear, clear_dimension, clear_dimension_in,
}
use sgate.Security.RateLimit.Limiter.Settings.{
  refresh_dims, refresh_dim_buckets, update_all, set_dimension_config, new_rate_limiter,
}
use sgate.Security.RateLimit.Limiter.Counts.{Counted, empty-Counted, allow_in_shard-Counted}

abbrev pub ShardCounted : ℕ → RateShard → Type 0
ShardCounted cap sh = (d : String) → Counted cap sh d

-- Every shard counts every dimension exactly, within the limiter's own limit.
pub record TablesCounted (cap : ℕ) (rl : RateLimiter) : Type 0 where
  pub limit_is : rl.max_buckets_per_shard ≡ pos cap
  pub shards_counted : (i : ℕ) → ShardCounted cap (get_or rl.shards i empty_shard)

allow-TablesCounted :
    (hash : String → ℕ) (cap : ℕ) (rl : RateLimiter) (dimension key : String) (now : ℕ)
    → cap < 9223372036854775808
    → TablesCounted cap rl
    → TablesCounted cap (allow hash rl dimension key now).0
unfolding allow
allow-TablesCounted hash cap rl dimension key now small v = record {
  limit_is = v.limit_is;
  shards_counted = λ i.
      set-keeps (ShardCounted cap) rl.shards (shard_index hash dimension key) i _ empty_shard
        (v.shards_counted i)
        (rw v.limit_is (
          allow_in_shard-Counted cap _ _ dimension key now small
            (v.shards_counted (shard_index hash dimension key))));
}

allow_each-TablesCounted :
    (hash : String → ℕ) (cap : ℕ) (rl : RateLimiter) (ds : List (String × String)) (now : ℕ)
    → cap < 9223372036854775808
    → TablesCounted cap rl
    → TablesCounted cap (allow_each hash rl ds now).0
unfolding allow_each
allow_each-TablesCounted hash cap rl [] now small v = v
allow_each-TablesCounted hash cap rl ((d, k) ∷ ds) now small v =
    elim (Bool-cases (allow hash rl d k now).1) [
      | inl passed ↦ rw passed (
          allow_each-TablesCounted hash cap (allow hash rl d k now).0 ds now small
            (allow-TablesCounted hash cap rl d k now small v))
      | inr refused ↦ rw refused (allow-TablesCounted hash cap rl d k now small v)
    ]

allow_multi-TablesCounted :
    (hash : String → ℕ) (cap : ℕ) (rl : RateLimiter) (ds : List (String × String)) (now : ℕ)
    → cap < 9223372036854775808
    → TablesCounted cap rl
    → TablesCounted cap (allow_multi hash rl ds now).0
unfolding allow_multi
allow_multi-TablesCounted hash cap rl ds now small v = elim (Bool-cases (peek_all hash rl ds)) [
  | inl ready ↦ rw ready (allow_each-TablesCounted hash cap rl ds now small v)
  | inr shut ↦ rw shut v
]

length-update_all :
    (cfg : DimensionConfig) (m : Map String TokenBucket) → length (update_all cfg m) ≡ length m
unfolding update_all
length-update_all cfg [] = refl
length-update_all cfg ((k, tb) ∷ m) = ap suc (length-update_all cfg m)

length-refresh_dims :
    (dimension d : String) (cfg : DimensionConfig) (m : Map String (Map String TokenBucket))
    → length (or_nil (lookup d (refresh_dims dimension cfg m))) ≡ length (or_nil (lookup d m))
unfolding refresh_dims lookup
length-refresh_dims dimension d cfg [] = refl
length-refresh_dims dimension d cfg ((j, buckets) ∷ m) =
    ground (arith, length-update_all cfg buckets, length-refresh_dims dimension d cfg m)

refresh-TablesCounted :
    (cap : ℕ) (rl : RateLimiter) (dimension : String) (cfg : DimensionConfig)
    → TablesCounted cap rl
    → TablesCounted cap (refresh_dim_buckets rl dimension cfg)
unfolding refresh_dim_buckets
refresh-TablesCounted cap rl dimension cfg v = record {
  limit_is = v.limit_is;
  shards_counted = λ i.
      map-keeps (ShardCounted cap) _ rl.shards i empty_shard (λ sh w d. refreshed sh d (w d))
        (v.shards_counted i);
}
  where
    refreshed :
        (sh : RateShard) (d : String)
        → Counted cap sh d
        → Counted cap (record sh { dims = refresh_dims dimension cfg sh.dims }) d
    refreshed sh d w =
        unfold count_of dim_of in
        record {
          exact = w.exact ∙ ap pos (sym (length-refresh_dims dimension d cfg sh.dims));
          capped = omega (arith, length-refresh_dims dimension d cfg sh.dims, w.capped);
        }

clear_dimension_in-Counted :
    (cap : ℕ) (dimension : String) (sh : RateShard) (d : String)
    → Counted cap sh d
    → Counted cap (clear_dimension_in dimension sh) d
unfolding clear_dimension_in count_of dim_of
clear_dimension_in-Counted cap dimension sh d w =
    ground (arith, lookup-erase dimension d sh.counts, lookup-erase dimension d sh.dims)

-- The calls that change the tables.
pub data TableCall : Type 0 where
  allows : String → String → ℕ → TableCall
  allows_multi : List (String × String) → ℕ → TableCall
  sets_config : String → DimensionConfig → TableCall
  clears : TableCall
  clears_dimension : String → TableCall

unfoldable pub table_step : (String → ℕ) → RateLimiter → TableCall → RateLimiter
table_step hash rl (allows dimension key now) = (allow hash rl dimension key now).0
table_step hash rl (allows_multi dimensions now) = (allow_multi hash rl dimensions now).0
table_step hash rl (sets_config dimension cfg) = set_dimension_config rl dimension cfg
table_step hash rl clears = clear rl
table_step hash rl (clears_dimension dimension) = clear_dimension rl dimension

unfoldable pub table_run : (String → ℕ) → RateLimiter → List TableCall → RateLimiter
table_run hash rl [] = rl
table_run hash rl (c ∷ cs) = table_run hash (table_step hash rl c) cs

step-TablesCounted :
    (hash : String → ℕ) (cap : ℕ) (rl : RateLimiter) (c : TableCall)
    → cap < 9223372036854775808
    → TablesCounted cap rl
    → TablesCounted cap (table_step hash rl c)
unfolding table_step clear clear_dimension set_dimension_config
step-TablesCounted hash cap rl (allows d k now) small v =
    allow-TablesCounted hash cap rl d k now small v
step-TablesCounted hash cap rl (allows_multi ds now) small v =
    allow_multi-TablesCounted hash cap rl ds now small v
step-TablesCounted hash cap rl (sets_config d cfg) small v =
    refresh-TablesCounted cap _ d cfg
      (record { limit_is = v.limit_is; shards_counted = v.shards_counted })
step-TablesCounted hash cap rl clears small v = record {
  limit_is = v.limit_is;
  shards_counted = λ i.
      map-keeps (ShardCounted cap) _ rl.shards i empty_shard (λ sh w. empty-Counted cap)
        (v.shards_counted i);
}
step-TablesCounted hash cap rl (clears_dimension d) small v = record {
  limit_is = v.limit_is;
  shards_counted = λ i.
      map-keeps (ShardCounted cap) _ rl.shards i empty_shard
        (λ sh w x. clear_dimension_in-Counted cap d sh x (w x)) (v.shards_counted i);
}

-- Take tables in which each shard counts the buckets of each dimension exactly and keeps at most
-- `cap`, the limiter's limit. After any sequence of single and multi-dimension requests, changes of
-- a dimension's settings and clearings, at any times and for any hash, they still do.
pub table_run-TablesCounted :
    (hash : String → ℕ) (cap : ℕ) (rl : RateLimiter) (cs : List TableCall)
    → cap < 9223372036854775808
    → TablesCounted cap rl
    → TablesCounted cap (table_run hash rl cs)
unfolding table_run
table_run-TablesCounted hash cap rl [] small v = v
table_run-TablesCounted hash cap rl (c ∷ cs) small v =
    table_run-TablesCounted hash cap (table_step hash rl c) cs small
      (step-TablesCounted hash cap rl c small v)

replicate-Counted :
    (cap n i : ℕ) (d : String) → Counted cap (get_or (replicate n empty_shard) i empty_shard) d
replicate-Counted cap zero i d = empty-Counted cap d
replicate-Counted cap (suc n) zero d = empty-Counted cap d
replicate-Counted cap (suc n) (suc i) d = replicate-Counted cap n i d

-- A new limiter's tables are so, with the source's limit of 1562 buckets for a shard.
pub new-TablesCounted :
    (max_tokens token_refresh : ℤ) (now : ℕ)
    → TablesCounted 1562 (new_rate_limiter max_tokens token_refresh now)
unfolding new_rate_limiter
new-TablesCounted max_tokens token_refresh now = record {
  limit_is = refl;
  shards_counted = λ i d. replicate-Counted 1562 rate_shard_count i d;
}
