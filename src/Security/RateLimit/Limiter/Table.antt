-- ===== src/Security/RateLimit/Limiter/Table.antt =====
-- internal/security/ratelimit.go: the requests, which find or make their bucket, and the upkeep of
-- the tables.
use sgate.Prelude.{
  ℕ, ◌+◌, ◌%◌, String, Bool, true, false, List, [], ◌∷◌, map, none, some, if◌then◌else◌, get_or,
  set, string_eq, ltb,
}
use sgate.Prelude.Int.{ℤ, pos, ◌+ℤ◌, ◌-ℤ◌, ltb_ℤ, leb_ℤ, wrap64}
use sgate.Prelude.Maps.{Map, lookup, insert, erase}
use sgate.Security.RateLimit.Bucket.{TokenBucket, try_consume, new_token_bucket}
use sgate.Security.RateLimit.Limiter.{
  DimensionConfig, RateShard, RateLimiter, rate_shard_count, empty_shard, or_zero, dim_of, count_of,
  put_bucket, add_bucket, dim_config, shard_key,
}

-- One shard's part of a request: its bucket is used, or made and used; a dimension that is full
-- refuses a new key.
unfoldable pub allow_in_shard :
    RateShard → ℤ → DimensionConfig → String → String → ℕ → RateShard × Bool
unfolding dim_of count_of put_bucket add_bucket
allow_in_shard sh limit cfg dimension key now = elim (lookup key (dim_of sh dimension)) [
  | some tb ↦ let (tb', passed) = try_consume tb now in (put_bucket sh dimension key tb', passed)
  | none ↦
      if leb_ℤ limit (count_of sh dimension)
      then (sh, false)
      else let fresh = new_token_bucket cfg.max_tokens cfg.burst_tokens cfg.token_refresh now in
        let (tb', passed) = try_consume fresh now in (add_bucket sh dimension key tb', passed)
]

unfoldable pub peek_in_shard : RateShard → String → String → Bool
unfolding dim_of
peek_in_shard sh dimension key = elim (lookup key (dim_of sh dimension)) [
  | none ↦ true
  | some tb ↦ ltb_ℤ (pos 0) tb.tokens
]

module _ (hash : String → ℕ) where
  unfoldable pub shard_index : String → String → ℕ
  shard_index dimension key = hash (shard_key dimension key) % rate_shard_count

  abbrev pub shard_for : RateLimiter → String → String → RateShard
  shard_for rl dimension key = get_or rl.shards (shard_index dimension key) empty_shard

  unfoldable pub allow : RateLimiter → String → String → ℕ → RateLimiter × Bool
  allow rl dimension key now =
      let (sh, passed) =
        allow_in_shard (shard_for rl dimension key) rl.max_buckets_per_shard
          (dim_config rl dimension) dimension key now in
      (record rl { shards = set rl.shards (shard_index dimension key) sh }, passed)

  unfoldable pub peek : RateLimiter → String → String → Bool
  peek rl dimension key = peek_in_shard (shard_for rl dimension key) dimension key

  unfoldable pub get_tokens : RateLimiter → String → String → ℤ
  get_tokens rl dimension key = elim (lookup key (dim_of (shard_for rl dimension key) dimension)) [
    | some tb ↦ tb.tokens
    | none ↦ elim (lookup dimension rl.dimension_configs) [
      | some cfg ↦ cfg.max_tokens
      | none ↦ rl.max_tokens
    ]
  ]

  -- Both loops of AllowMulti, over the dimensions in the order in which Go ranges over them.
  unfoldable pub peek_all : RateLimiter → List (String × String) → Bool
  peek_all rl [] = true
  peek_all rl ((dimension, key) ∷ rest) =
      let others = peek_all rl rest in if peek rl dimension key then others else false

  unfoldable pub allow_each : RateLimiter → List (String × String) → ℕ → RateLimiter × Bool
  allow_each rl [] now = (rl, true)
  allow_each rl ((dimension, key) ∷ rest) now =
      let (rl', passed) = allow rl dimension key now in
      let others = allow_each rl' rest now in if passed then others else (rl', false)

  unfoldable pub allow_multi : RateLimiter → List (String × String) → ℕ → RateLimiter × Bool
  unfolding peek_all allow_each
  allow_multi rl dimensions now =
      if peek_all rl dimensions then allow_each rl dimensions now else (rl, false)

unfoldable pub clear : RateLimiter → RateLimiter
clear rl = record rl { shards = map (λ (sh : RateShard). empty_shard) rl.shards }

unfoldable pub clear_dimension_in : String → RateShard → RateShard
clear_dimension_in dimension sh = record {
  dims = erase dimension sh.dims;
  counts = erase dimension sh.counts;
}

unfoldable pub clear_dimension : RateLimiter → String → RateLimiter
unfolding clear_dimension_in
clear_dimension rl dimension = record rl { shards = map (clear_dimension_in dimension) rl.shards }

-- 30 * time.Minute
abbrev pub bucket_idle : ℕ
bucket_idle = 1800000000000

-- The inner loop of a cleanup: idle buckets go, and the count of their dimension with them.
sweep_buckets :
    ℕ → String → Map String TokenBucket → Map String ℤ → Map String TokenBucket × Map String ℤ
unfolding wrap64
sweep_buckets now dimension [] counts = ([], counts)
sweep_buckets now dimension ((key, tb) ∷ rest) counts =
    let idle = ltb (tb.last_update + bucket_idle) now in
    let (kept, counts') = sweep_buckets now dimension rest (
      if idle
      then insert dimension (wrap64 (or_zero (lookup dimension counts) -ℤ pos 1)) counts
      else counts) in
    (if idle then kept else (key, tb) ∷ kept, counts')

abbrev pub is_nil {ℓ} : {A : Type ℓ} → List A → Bool
is_nil [] = true
is_nil (x ∷ xs) = false

sweep_dims :
    ℕ
    → Map String (Map String TokenBucket)
    → Map String ℤ
    → Map String (Map String TokenBucket) × Map String ℤ
unfolding sweep_buckets
sweep_dims now [] counts = ([], counts)
sweep_dims now ((dimension, buckets) ∷ rest) counts =
    let (kept, counts') = sweep_buckets now dimension buckets counts in
    let (dims, counts'') =
      sweep_dims now rest (if is_nil kept then erase dimension counts' else counts') in
    (if is_nil kept then dims else (dimension, kept) ∷ dims, counts'')

unfoldable pub cleanup : RateLimiter → ℕ → RateLimiter
unfolding sweep_dims
cleanup rl now = record rl {
  shards =
      map
        (λ (sh : RateShard).
          let (dims, counts) = sweep_dims now sh.dims sh.counts in
          record { dims = dims; counts = counts })
        rl.shards;
}

stats_of : Map String ℤ → Map String ℤ → Map String ℤ
unfolding wrap64
stats_of stats [] = stats
stats_of stats ((dimension, n) ∷ rest) =
    stats_of (insert dimension (wrap64 (or_zero (lookup dimension stats) +ℤ n)) stats) rest

stats_from : Map String ℤ → List RateShard → Map String ℤ
unfolding stats_of
stats_from stats [] = stats
stats_from stats (sh ∷ rest) = stats_from (stats_of stats sh.counts) rest

unfoldable pub get_stats : RateLimiter → Map String ℤ
unfolding stats_from
get_stats rl = stats_from [] rl.shards
