-- ===== src/Security/RateLimit/Limiter/Counts.antt =====
-- The bucket counters of internal/security/ratelimit.go, and the tables that they count.
use sgate.Prelude.{
  ℕ, suc, ◌<◌, ◌≤◌, ◌≡◌, refl, sym, ap, ◌∙◌, String, false, none, some, if◌then◌else◌, length,
  string_eq, ◌==◌, arith, inl, inr, Bool-cases, Option-cases,
}
use sgate.Prelude.Int.{pos, ◌+ℤ◌, leb_ℤ, wrap64, wrap64_small}
use sgate.Prelude.Maps.{lookup, insert, lookup-insert, length-insert_new, length-insert_old}
use sgate.Security.RateLimit.Bucket.{TokenBucket, try_consume}
use sgate.Security.RateLimit.Limiter.{
  DimensionConfig, RateShard, empty_shard, or_zero, dim_of, count_of, put_bucket, add_bucket,
}
use sgate.Security.RateLimit.Limiter.Table.{allow_in_shard}
use text.Mathlib.TextEquality.{eq_iff}

-- In one dimension of a shard, `n` buckets are kept, counted as such, and no more than `cap`.
pub record Counted (cap : ℕ) (sh : RateShard) (dimension : String) : Type 0 where
  pub exact : count_of sh dimension ≡ pos (length (dim_of sh dimension))
  pub capped : length (dim_of sh dimension) ≤ cap

pub empty-Counted : (cap : ℕ) (d : String) → Counted cap empty_shard d
unfolding count_of dim_of lookup
empty-Counted cap d = ground arith

dim_of-put_bucket :
    (sh : RateShard) (dimension key d : String) (tb : TokenBucket)
    → dim_of (put_bucket sh dimension key tb) d
      ≡ (if dimension == d then insert key tb (dim_of sh dimension) else dim_of sh d)
unfolding dim_of put_bucket
dim_of-put_bucket sh dimension key d tb =
    ground (arith, lookup-insert dimension d (insert key tb (dim_of sh dimension)) sh.dims)

length-put_old :
    (sh : RateShard) (dimension key d : String) (tb old : TokenBucket)
    → lookup key (dim_of sh dimension) ≡ some old
    → length (dim_of (put_bucket sh dimension key tb) d) ≡ length (dim_of sh d)
length-put_old sh dimension key d tb old e = elim (Bool-cases (dimension == d)) [
  | inl same ↦
      rw (dim_of-put_bucket sh dimension key d tb, same)
        (length-insert_old key tb old (dim_of sh dimension) e
          ∙ ap (λ x. length (dim_of sh x)) ((eq_iff dimension d).0 same))
  | inr other ↦ rw (dim_of-put_bucket sh dimension key d tb, other) refl
]

length-put_new :
    (sh : RateShard) (dimension key d : String) (tb : TokenBucket)
    → lookup key (dim_of sh dimension) ≡ none
    → length (dim_of (put_bucket sh dimension key tb) d)
      ≡ (if dimension == d then suc (length (dim_of sh dimension)) else length (dim_of sh d))
length-put_new sh dimension key d tb e = elim (Bool-cases (dimension == d)) [
  | inl same ↦
      rw (dim_of-put_bucket sh dimension key d tb, same)
        (length-insert_new key tb (dim_of sh dimension) e)
  | inr other ↦ rw (dim_of-put_bucket sh dimension key d tb, other) refl
]

count_of-put_bucket :
    (sh : RateShard) (dimension key d : String) (tb : TokenBucket)
    → count_of (put_bucket sh dimension key tb) d ≡ count_of sh d
unfolding count_of put_bucket
count_of-put_bucket sh dimension key d tb = refl

count_of-add_bucket :
    (sh : RateShard) (dimension key d : String) (tb : TokenBucket)
    → count_of (add_bucket sh dimension key tb) d
      ≡ (if dimension == d then wrap64 (count_of sh dimension +ℤ pos 1) else count_of sh d)
unfolding count_of add_bucket put_bucket
count_of-add_bucket sh dimension key d tb = ground (
  arith,
  lookup-insert dimension d (wrap64 (or_zero (lookup dimension sh.counts) +ℤ pos 1)) sh.counts,
)

dim_of-add_bucket :
    (sh : RateShard) (dimension key d : String) (tb : TokenBucket)
    → dim_of (add_bucket sh dimension key tb) d ≡ dim_of (put_bucket sh dimension key tb) d
unfolding dim_of add_bucket put_bucket
dim_of-add_bucket sh dimension key d tb = refl

put_bucket-Counted :
    (cap : ℕ) (sh : RateShard) (dimension key d : String) (tb old : TokenBucket)
    → lookup key (dim_of sh dimension) ≡ some old
    → Counted cap sh d
    → Counted cap (put_bucket sh dimension key tb) d
put_bucket-Counted cap sh dimension key d tb old e v = record {
  exact =
      count_of-put_bucket sh dimension key d tb
      ∙ v.exact
      ∙ ap pos (sym (length-put_old sh dimension key d tb old e));
  capped = omega (arith, length-put_old sh dimension key d tb old e, v.capped);
}

add_bucket-Counted :
    (cap : ℕ) (sh : RateShard) (dimension key d : String) (tb : TokenBucket)
    → cap < 9223372036854775808
    → lookup key (dim_of sh dimension) ≡ none
    → leb_ℤ (pos cap) (count_of sh dimension) ≡ false
    → Counted cap sh dimension
    → Counted cap sh d
    → Counted cap (add_bucket sh dimension key tb) d
add_bucket-Counted cap sh dimension key d tb small e room v w = ground (
  arith,
  count_of-add_bucket sh dimension key d tb,
  dim_of-add_bucket sh dimension key d tb,
  length-put_new sh dimension key d tb e,
  wrap64_small (suc (length (dim_of sh dimension))),
)

-- One request keeps every dimension of its shard counted exactly, and within the limit.
pub allow_in_shard-Counted :
    (cap : ℕ) (sh : RateShard) (cfg : DimensionConfig) (dimension key : String) (now : ℕ)
    → cap < 9223372036854775808
    → ((d : String) → Counted cap sh d)
    → (d : String) → Counted cap (allow_in_shard sh (pos cap) cfg dimension key now).0 d
unfolding allow_in_shard
allow_in_shard-Counted cap sh cfg dimension key now small v d =
    elim (Option-cases (lookup key (dim_of sh dimension))) [
      | inr (tb, e) ↦
          rw (e, allow_in_shard)
            (put_bucket-Counted cap sh dimension key d (try_consume tb now).0 tb e (v d))
      | inl e ↦ elim (Bool-cases (leb_ℤ (pos cap) (count_of sh dimension))) [
        | inl full ↦ rw (e, allow_in_shard) (rw full (v d))
        | inr room ↦
            rw (e, allow_in_shard)
              (rw room
                (add_bucket-Counted cap sh dimension key d _ small e room (v dimension) (v d)))
      ]
    ]
