-- ===== src/Gateway/Integrity.antt =====
-- internal/gateway/integrity.go: the check that no message of a connection comes twice. `hash` stands
-- for uhash.FNV1a32 and `itoa` for strconv.FormatInt; times are in milliseconds.
pub mod Replay
use Prim.Native.String.{◌++◌ as str_append}
use sgate.Prelude.{
  ℕ, zero, suc, ◌%◌, String, Bool, true, false, List, [], ◌∷◌, Option, none, some, if◌then◌else◌,
  get_or, set, replicate, map, ◌==◌, string_eq,
}
use sgate.Prelude.Int.{ℤ, pos, negsuc, ltb_ℤ, sub_ℕ}
use sgate.Prelude.Maps.{Map, lookup, insert}
use sgate.Types.StreamData.{StreamData, is_zero}

pub data IntegrityError : Type 0 where
  seq_id_required replay_detected : IntegrityError

pub record MessageIntegrity : Type 0 where
  pub time_window : ℤ
  pub shards : List (Map String ℕ)

abbrev pub integrity_shard_count : ℕ
integrity_shard_count = 16

unfoldable pub new_message_integrity : ℤ → MessageIntegrity
new_message_integrity time_window = record {
  time_window = time_window;
  shards = replicate integrity_shard_count [];
}

-- A sweep of one shard keeps what is not older than the window.
unfoldable pub delete_old : ℤ → ℕ → Map String ℕ → Map String ℕ
delete_old window now [] = []
delete_old window now ((key, ts) ∷ rest) =
    let kept = delete_old window now rest in
    if ltb_ℤ window (sub_ℕ now ts) then kept else (key, ts) ∷ kept

unfoldable pub cleanup_cache : MessageIntegrity → ℕ → MessageIntegrity
cleanup_cache mi now = record mi { shards = map (delete_old mi.time_window now) mi.shards }

module _ (hash : String → ℕ) (itoa : ℤ → String) where
  abbrev pub shard_for : String → ℕ
  shard_for connection_id = hash connection_id % integrity_shard_count

  unfoldable pub message_key : String → StreamData → String
  message_key connection_id msg = str_append connection_id (
      str_append "\0" (
        str_append msg.user_key
          (str_append "\0" (str_append (itoa msg.cmd) (str_append "\0" (itoa msg.seq_id))))))

  abbrev pub cache_of : MessageIntegrity → String → Map String ℕ
  cache_of mi connection_id = get_or mi.shards (shard_for connection_id) []

  unfoldable pub process_message :
      MessageIntegrity → String → StreamData → ℕ → MessageIntegrity × Option IntegrityError
  process_message mi connection_id msg now =
      let key = message_key connection_id msg in
      let cache = cache_of mi connection_id in
      if is_zero msg.seq_id then (mi, some seq_id_required) else (elim (lookup key cache) [
        | some ts ↦ (mi, some replay_detected)
        | none ↦ (
          record mi { shards = set mi.shards (shard_for connection_id) (insert key now cache) },
          none,
        )
      ])
