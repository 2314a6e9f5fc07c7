-- ===== src/Security/RateLimit/Limiter/Settings.antt =====
-- internal/security/ratelimit.go: the limiter's settings, and what a change of them does to its buckets.
use sgate.Prelude.{
  ℕ, ◌+◌, ◌/◌, String, [], ◌∷◌, map, none, some, if◌then◌else◌, replicate, string_eq, ◌==◌,
}
use sgate.Prelude.Int.{ℤ, pos, negsuc, ◌*ℤ◌, sub_ℕ, leb_ℤ, wrap64}
use sgate.Prelude.Maps.{Map, lookup, insert}
use sgate.Security.RateLimit.Bucket.{TokenBucket, update_params, new_token_bucket}
use sgate.Security.RateLimit.Limiter.{
  DimensionConfig, RateShard, RateLimiter, rate_shard_count, max_buckets_per_shard_default,
  empty_shard, or_zero_config,
}

-- maxTokens / 2, which Go rounds towards 0.
abbrev pub half : ℤ → ℤ
half (pos n) = pos (n / 2)
half (negsuc n) = sub_ℕ 0 ((n + 1) / 2)

abbrev pub max_ℤ : ℤ → ℤ → ℤ
max_ℤ a b = if leb_ℤ a b then b else a

abbrev pub positive_or : ℤ → ℤ → ℤ
positive_or value default = if leb_ℤ value (pos 0) then default else value

unfoldable pub rebuild_dim_config : RateLimiter → String → RateLimiter
unfolding wrap64
rebuild_dim_config rl dimension = record rl {
  dimension_configs =
      if dimension == "ip"
      then insert "ip"
          (record {
            max_tokens = rl.max_tokens;
            burst_tokens = wrap64 (rl.max_tokens *ℤ pos 2);
            token_refresh = rl.token_refresh;
          })
          rl.dimension_configs
      else if dimension == "user"
      then insert "user"
          (record {
            max_tokens = max_ℤ (pos 1) (half rl.max_tokens);
            burst_tokens = rl.max_tokens;
            token_refresh = rl.token_refresh;
          })
          rl.dimension_configs
      else if dimension == "route"
      then insert "route"
          (record {
            max_tokens = positive_or rl.route_max_tokens (wrap64 (rl.max_tokens *ℤ pos 4));
            burst_tokens =
                wrap64 (positive_or rl.route_max_tokens (wrap64 (rl.max_tokens *ℤ pos 4)) *ℤ pos 2);
            token_refresh = rl.token_refresh;
          })
          rl.dimension_configs
      else rl.dimension_configs;
}

unfoldable pub reset_config : RateLimiter → ℤ → ℤ → RateLimiter
unfolding rebuild_dim_config
reset_config rl max_tokens token_refresh =
    rebuild_dim_config (rebuild_dim_config (rebuild_dim_config cleared "ip") "user") "route"
  where
    cleared : RateLimiter
    cleared = record rl {
      token_refresh = token_refresh;
      max_tokens = max_tokens;
      burst_tokens = wrap64 (max_tokens *ℤ pos 2);
      dimension_configs = [];
    }

unfoldable pub init_global_bucket : RateLimiter → ℕ → RateLimiter
unfolding wrap64
init_global_bucket rl now = record rl {
  global_bucket = some (new_token_bucket limit (wrap64 (limit *ℤ pos 2)) rl.token_refresh now);
}
  where
    limit : ℤ
    limit = positive_or rl.global_max_tokens (wrap64 (rl.max_tokens *ℤ pos 10))

unfoldable pub new_rate_limiter : ℤ → ℤ → ℕ → RateLimiter
unfolding reset_config init_global_bucket
new_rate_limiter max_tokens token_refresh now =
    init_global_bucket (reset_config blank max_tokens token_refresh) now
  where
    blank : RateLimiter
    blank = record {
      shards = replicate rate_shard_count empty_shard;
      global_bucket = none;
      token_refresh = token_refresh;
      max_tokens = max_tokens;
      burst_tokens = wrap64 (max_tokens *ℤ pos 2);
      route_max_tokens = pos 0;
      global_max_tokens = pos 0;
      dimension_configs = [];
      max_buckets_per_shard = max_buckets_per_shard_default;
    }

unfoldable pub update_all : DimensionConfig → Map String TokenBucket → Map String TokenBucket
update_all cfg [] = []
update_all cfg ((key, tb) ∷ rest) =
    (key, update_params tb cfg.max_tokens cfg.burst_tokens cfg.token_refresh) ∷ update_all cfg rest

unfoldable pub refresh_dims :
    String
    → DimensionConfig
    → Map String (Map String TokenBucket)
    → Map String (Map String TokenBucket)
unfolding update_all
refresh_dims dimension cfg [] = []
refresh_dims dimension cfg ((d, buckets) ∷ rest) =
    (d, if d == dimension then update_all cfg buckets else buckets)
    ∷ refresh_dims dimension cfg rest

unfoldable pub refresh_dim_buckets : RateLimiter → String → DimensionConfig → RateLimiter
unfolding refresh_dims
refresh_dim_buckets rl dimension cfg = record rl {
  shards =
      map (λ (sh : RateShard). record sh { dims = refresh_dims dimension cfg sh.dims }) rl.shards;
}

unfoldable pub set_dimension_config : RateLimiter → String → DimensionConfig → RateLimiter
unfolding refresh_dim_buckets
set_dimension_config rl dimension cfg =
    refresh_dim_buckets
      (record rl { dimension_configs = insert dimension cfg rl.dimension_configs }) dimension cfg

unfoldable pub set_route_max_tokens : RateLimiter → ℤ → RateLimiter
unfolding rebuild_dim_config refresh_dim_buckets
set_route_max_tokens rl n =
    let rebuilt = rebuild_dim_config (record rl { route_max_tokens = n }) "route" in
    refresh_dim_buckets rebuilt "route" (or_zero_config (lookup "route" rebuilt.dimension_configs))

unfoldable pub set_global_max_tokens : RateLimiter → ℤ → ℕ → RateLimiter
unfolding init_global_bucket
set_global_max_tokens rl n now = init_global_bucket (record rl { global_max_tokens = n }) now

refresh_each : RateLimiter → Map String DimensionConfig → RateLimiter
unfolding refresh_dim_buckets
refresh_each rl [] = rl
refresh_each rl ((dimension, cfg) ∷ rest) = refresh_each (refresh_dim_buckets rl dimension cfg) rest

unfoldable pub update_rate : RateLimiter → ℤ → ℤ → ℕ → RateLimiter
unfolding reset_config refresh_each init_global_bucket
update_rate rl max_tokens token_refresh now =
    let reset = reset_config rl max_tokens token_refresh in
    init_global_bucket (refresh_each reset reset.dimension_configs) now

unfoldable pub get_dimension_config : RateLimiter → String → DimensionConfig
get_dimension_config rl dimension = elim (lookup dimension rl.dimension_configs) [
  | some cfg ↦ cfg
  | none ↦ record {
    max_tokens = rl.max_tokens;
    burst_tokens = rl.burst_tokens;
    token_refresh = rl.token_refresh;
  }
]

unfoldable pub set_max_tokens : RateLimiter → ℤ → RateLimiter
unfolding wrap64
set_max_tokens rl max_tokens = record rl {
  max_tokens = max_tokens;
  burst_tokens = wrap64 (max_tokens *ℤ pos 2);
}

unfoldable pub set_token_refresh : RateLimiter → ℤ → RateLimiter
set_token_refresh rl token_refresh = record rl { token_refresh = token_refresh }
