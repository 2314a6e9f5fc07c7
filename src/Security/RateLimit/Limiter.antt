-- ===== src/Security/RateLimit/Limiter.antt =====
-- internal/security/ratelimit.go: the limiter, its 64 shards of buckets and its settings, one call
-- at a time. `hash` stands for hash/maphash; a mask with 63 is a remainder by 64.
pub mod Settings
pub mod Table
pub mod Counts
pub mod Calls
pub mod Multi
use Prim.Native.String.{◌++◌ as str_append}
use sgate.Prelude.{
  ℕ, suc, ◌+◌, ◌-◌, ◌/◌, ◌%◌, ◌<◌, String, Bool, true, false, List, [], ◌∷◌, ◌++◌, map, Option,
  none, some, if◌then◌else◌, length, get_or, set, replicate, string_eq, ◌==◌, ltb, ◌&&◌,
}
use sgate.Prelude.Int.{ℤ, pos, negsuc, ◌+ℤ◌, ◌-ℤ◌, ◌*ℤ◌, sub_ℕ, ltb_ℤ, leb_ℤ, wrap64}
use sgate.Prelude.Maps.{Map, lookup, insert, erase}
use sgate.Security.RateLimit.Bucket.{TokenBucket, try_consume, update_params, new_token_bucket}

pub record DimensionConfig : Type 0 where
  pub max_tokens : ℤ
  pub burst_tokens : ℤ
  pub token_refresh : ℤ

pub record RateShard : Type 0 where
  pub dims : Map String (Map String TokenBucket)
  pub counts : Map String ℤ

pub record RateLimiter : Type 0 where
  pub shards : List RateShard
  pub global_bucket : Option TokenBucket
  pub token_refresh : ℤ
  pub max_tokens : ℤ
  pub burst_tokens : ℤ
  pub route_max_tokens : ℤ
  pub global_max_tokens : ℤ
  pub dimension_configs : Map String DimensionConfig
  pub max_buckets_per_shard : ℤ

abbrev pub rate_shard_count : ℕ
rate_shard_count = 64

-- max(1, 100000 / 64)
abbrev pub max_buckets_per_shard_default : ℤ
max_buckets_per_shard_default = pos 1562

abbrev pub empty_shard : RateShard
empty_shard = record { dims = []; counts = [] }

-- A read of a missing key gives the zero value: a nil map, the count 0.
abbrev pub or_nil {ℓ} : {A : Type ℓ} → Option (List A) → List A
or_nil none = []
or_nil (some xs) = xs

abbrev pub or_zero : Option ℤ → ℤ
or_zero none = pos 0
or_zero (some n) = n

unfoldable pub dim_of : RateShard → String → Map String TokenBucket
dim_of sh dimension = or_nil (lookup dimension sh.dims)

unfoldable pub count_of : RateShard → String → ℤ
count_of sh dimension = or_zero (lookup dimension sh.counts)

unfoldable pub put_bucket : RateShard → String → String → TokenBucket → RateShard
put_bucket sh dimension key tb = record sh {
  dims = insert dimension (insert key tb (dim_of sh dimension)) sh.dims;
}

unfoldable pub add_bucket : RateShard → String → String → TokenBucket → RateShard
unfolding wrap64
add_bucket sh dimension key tb = record (put_bucket sh dimension key tb) {
  counts = insert dimension (wrap64 (count_of sh dimension +ℤ pos 1)) sh.counts;
}

abbrev pub zero_config : DimensionConfig
zero_config = record { max_tokens = pos 0; burst_tokens = pos 0; token_refresh = pos 0 }

abbrev pub or_zero_config : Option DimensionConfig → DimensionConfig
or_zero_config none = zero_config
or_zero_config (some cfg) = cfg

unfoldable pub dim_config : RateLimiter → String → DimensionConfig
dim_config rl dimension = elim (leb_ℤ cfg.max_tokens (pos 0) && leb_ℤ (pos 0) cfg.max_tokens) [
  | true ↦ record {
    max_tokens = rl.max_tokens;
    burst_tokens = rl.burst_tokens;
    token_refresh = rl.token_refresh;
  }
  | false ↦ cfg
]
  where
    cfg : DimensionConfig
    cfg = or_zero_config (lookup dimension rl.dimension_configs)

unfoldable pub allow_global : RateLimiter → ℕ → RateLimiter × Bool
allow_global rl now = elim rl.global_bucket [
  | none ↦ (rl, true)
  | some tb ↦
      let (tb', passed) = try_consume tb now in (record rl { global_bucket = some tb' }, passed)
]

unfoldable pub shard_key : String → String → String
shard_key dimension key = str_append dimension (str_append "\0" key)
