-- ===== src/Backend/Pool/Metadata.antt =====
-- What a logic server says of its stream, written and read (internal/routes/logicstream.go).
use sgate.Prelude.{
  ℕ, zero, suc, ◌<◌, ◌≡◌, ◌≢◌, refl, String, false, Option, some, leb, arith, if_cases, string_eq,
  ◌==◌,
}
use sgate.Prelude.Int.{ℤ, pos}
use sgate.Prelude.Maps.{lookup}
use sgate.Backend.Pool.{
  positive, LogicStreamMeta, logic_stream_metadata, logic_stream_metadata_from,
}

positive-pos : (n k : ℕ) → k < n → positive (some (pos n)) ≡ some n
positive-pos zero k h = elim h [ ]
positive-pos (suc n) k h = refl

later_not_le : (n k : ℕ) → k < n → leb n k ≡ false
later_not_le n k h = ground (arith, h)

-- If `atoi` reads what `itoa` writes, the metadata that a logic server with an identity and a shard
-- within its number of shards sends are read as what it sent.
pub metadata_round_trip :
    (itoa : ℕ → String) (atoi : String → Option ℤ) (m : LogicStreamMeta)
    → ((n : ℕ) → atoi (itoa n) ≡ some (pos n))
    → m.logic_id ≢ ""
    → m.shard_idx < m.shard_count
    → logic_stream_metadata_from atoi (logic_stream_metadata itoa m) ≡ some m
unfolding logic_stream_metadata logic_stream_metadata_from lookup
metadata_round_trip itoa atoi m reads named within =
    if_cases (λ (r : Option LogicStreamMeta). r ≡ some m) (m.logic_id == "")
      (λ e. absurd (named ((string_eq.beq_iff m.logic_id "").0 e)))
      (λ e.
        rw
          (
            reads m.shard_idx,
            reads m.shard_count,
            positive-pos m.shard_count m.shard_idx within,
            later_not_le m.shard_count m.shard_idx within,
          )
          refl)
