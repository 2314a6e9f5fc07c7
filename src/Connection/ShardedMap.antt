-- ===== src/Connection/ShardedMap.antt =====
-- internal/connection/sharded_map.go: a map in 256 shards, which the manager uses as one map.
-- `hash` stands for uhash.FNV1a32 (streasure/util).
use sgate.Prelude.{
  ℕ, zero, suc, ◌+◌, ◌%◌, ◌<◌, ◌≡◌, refl, ap, ◌∙◌, String, true, List, [], ◌∷◌, Option, none, some,
  if◌then◌else◌, length, get_or, set, replicate, nat_beq, string_eq, ◌==◌, arith, length-set,
}
use sgate.Prelude.Maps.{Map, lookup, insert, erase, lookup-insert, lookup-erase}
use native.Mathlib.Nat.{mod-lt}

abbrev pub shard_count : ℕ
shard_count = 256

abbrev pub ShardedMap : Type 0 → Type 0
ShardedMap V = List (Map String V)

abbrev pub new_sharded_map : {V : Type 0} → ShardedMap V
new_sharded_map = replicate shard_count []

-- Count.
unfoldable pub total_count : {V : Type 0} → ShardedMap V → ℕ
total_count [] = 0
total_count (s ∷ m) = length s + total_count m

get_or-set :
    {V : Type 0} (m : ShardedMap V) (i j : ℕ) (s : Map String V)
    → i < length m
    → get_or (set m i s) j [] ≡ (if nat_beq i j then s else get_or m j [])
get_or-set [] i j s h = absurd (omega arith)
get_or-set (x ∷ m) zero zero s h = refl
get_or-set (x ∷ m) zero (suc j) s h = ground arith
get_or-set (x ∷ m) (suc i) zero s h = ground arith
get_or-set (x ∷ m) (suc i) (suc j) s h = ground (arith, get_or-set m i j s)

unfoldable pub get_shard : (String → ℕ) → String → ℕ
get_shard hash key = hash key % shard_count

module _ (hash : String → ℕ) {V : Type 0} where
  unfoldable pub load : ShardedMap V → String → Option V
  load m key = lookup key (get_or m (get_shard hash key) [])

  unfoldable pub store : ShardedMap V → String → V → ShardedMap V
  store m key v = set m (get_shard hash key) (insert key v (get_or m (get_shard hash key) []))

  unfoldable pub delete : ShardedMap V → String → ShardedMap V
  delete m key = set m (get_shard hash key) (erase key (get_or m (get_shard hash key) []))

  get_shard-lt :
      (m : ShardedMap V) (key : String) → length m ≡ shard_count → get_shard hash key < length m
  unfolding get_shard
  get_shard-lt m key h = omega (arith, h, mod-lt (hash key) {m = shard_count})

  -- What a shard holds is read by the keys that the hash sends to it alone.
  load-set :
      (m : ShardedMap V) (key other : String) (s : Map String V)
      → length m ≡ shard_count
      → load (set m (get_shard hash key) s) other ≡ (
          if nat_beq (get_shard hash key) (get_shard hash other)
          then lookup other s
          else lookup other (get_or m (get_shard hash other) []))
  unfolding load
  load-set m key other s h =
      ground
        (arith, get_or-set m (get_shard hash key) (get_shard hash other) s (get_shard-lt m key h))

  -- Over 256 shards, however the hash spreads the keys, a store and a deletion act as on one map: the
  -- key then has the new value, or none, every other key what it had, and the shards stay 256.
  pub sharded-lookup :
      (m : ShardedMap V) (key other : String) (v : V)
      → length m ≡ shard_count
      → (load (store m key v) other ≡ (if key == other then some v else load m other))
        × (load (delete m key) other ≡ (if key == other then none else load m other))
        × (length (store m key v) ≡ shard_count)
        × (length (delete m key) ≡ shard_count)
  unfolding store delete load
  sharded-lookup m key other v h =
      let shard = get_or m (get_shard hash key) [] in
      let same : (key == other) ≡ true → get_shard hash key ≡ get_shard hash other =
        λ e. ap (get_shard hash) ((string_eq.beq_iff key other).0 e) in
      (
        ground (
          arith,
          same,
          load-set m key other (insert key v shard) h,
          lookup-insert key other v shard,
        ),
        ground
            (arith, same, load-set m key other (erase key shard) h, lookup-erase key other shard),
        length-set m (get_shard hash key) (insert key v shard) ∙ h,
        length-set m (get_shard hash key) (erase key shard) ∙ h,
      )
