-- ===== src/Backend/Pool.antt =====
-- internal/backend/pool.go and internal/routes/logicstream.go: the clients of the logic servers that
-- have dialled in. `made` holds all clients ever made, each known by its place, since the fast
-- client and the streams of a client that was replaced still refer to it. `Atoi` is a parameter.
-- Close also waits for goroutines that nothing starts, which is left out.
pub mod FastClient
pub mod Runs
pub mod Metadata
use sgate.Prelude.{
  ℕ, zero, suc, ◌*◌, String, Bool, true, false, not, ◌&&◌, ◌||◌, List, [], ◌∷◌, ◌++◌, Option, none,
  some, if◌then◌else◌, leb, ltb, nat_beq, length, get_elem?, set, ◌==◌, string_eq,
}
use sgate.Prelude.Int.{ℤ, pos, negsuc}
use sgate.Prelude.Maps.{Map, lookup, insert, erase}
use sgate.Backend.Queue.{QueuePolicy, LogicError, err_not_connected, err_connection_closing}
use sgate.Backend.Client.{
  is_connected_state, LogicClient, new_logic_client, init_accepted, attach_shard, detach_shard,
  close_client, shard_at,
}

pub record LogicStreamMeta : Type 0 where
  pub logic_id : String
  pub zone : String
  pub addr : String
  pub shard_idx : ℕ
  pub shard_count : ℕ

pub record LogicClientPool (M : Type 0) : Type 0 where
  pub made : List (LogicClient M)
  pub clients : Map String ℕ
  pub fast_client : Option ℕ
  pub zone_map : Map String String
  pub closed : Bool

-- What the gateway's settings give a new client.
pub record StreamSettings : Type 0 where
  pub cpus : ℕ
  pub send_channel_size : ℕ
  pub queue_max : ℤ
  pub policy : QueuePolicy

abbrev pub positive : Option ℤ → Option ℕ
positive none = none
positive (some (pos zero)) = none
positive (some (pos (suc n))) = some (suc n)
positive (some (negsuc n)) = none

abbrev pub natural : Option ℤ → Option ℕ
natural none = none
natural (some (pos n)) = some n
natural (some (negsuc n)) = none

abbrev pub or_empty : Option String → String
or_empty none = ""
or_empty (some s) = s

abbrev pub get : Map String String → String → String
get md key = or_empty (lookup key md)

abbrev pub is_count : ℕ → Option ℕ → Bool
is_count n none = false
is_count n (some k) = nat_beq k n

-- The one value of a map of one entry.
abbrev pub only : Map String ℕ → Option ℕ
only [] = none
only ((id, c) ∷ []) = some c
only (a ∷ (b ∷ rest)) = none

-- Metadata are the first values of their keys.
module _ (itoa : ℕ → String) where
  unfoldable pub logic_stream_metadata : LogicStreamMeta → Map String String
  logic_stream_metadata m =
      ("sgate-logic-id", m.logic_id)
      ∷ ("sgate-logic-zone", m.zone)
      ∷ ("sgate-logic-addr", m.addr)
      ∷ ("sgate-shard-idx", itoa m.shard_idx)
      ∷ ("sgate-shard-count", itoa m.shard_count)
      ∷ []

module _ (atoi : String → Option ℤ) where
  unfoldable pub logic_stream_metadata_from : Map String String → Option LogicStreamMeta
  logic_stream_metadata_from md =
      if get md "sgate-logic-id" == ""
      then none
      else (elim (natural (atoi (get md "sgate-shard-idx"))) [
        | none ↦ none
        | some idx ↦ elim (positive (atoi (get md "sgate-shard-count"))) [
          | none ↦ none
          | some total ↦
              if leb total idx
              then none
              else some (record {
                logic_id = get md "sgate-logic-id";
                zone = get md "sgate-logic-zone";
                addr = get md "sgate-logic-addr";
                shard_idx = idx;
                shard_count = total;
              })
        ]
      ])

module _ {M : Type 0} where
  abbrev pub new_logic_client_pool : LogicClientPool M
  new_logic_client_pool = record {
    made = [];
    clients = [];
    fast_client = none;
    zone_map = [];
    closed = false;
  }

  abbrev pub update_fast_client : LogicClientPool M → LogicClientPool M
  update_fast_client pool = record pool { fast_client = only pool.clients }

  abbrev pub connected_at : List (LogicClient M) → ℕ → Bool
  connected_at made c = elim (get_elem? made c) [
    | none ↦ false
    | some lc ↦ is_connected_state lc.state
  ]

  abbrev pub is_connected : LogicClientPool M → ℕ → Bool
  is_connected pool c = connected_at pool.made c

  unfoldable pub get_client : LogicClientPool M → String → Option ℕ
  get_client pool server_id = elim (lookup server_id pool.clients) [
    | none ↦ none
    | some c ↦ if is_connected pool c then some c else none
  ]

  unfoldable pub zone_of : LogicClientPool M → String → String
  zone_of pool server_id = or_empty (lookup server_id pool.zone_map)

  abbrev pub any_connected : LogicClientPool M → Map String ℕ → Bool
  any_connected pool [] = false
  any_connected pool ((id, c) ∷ rest) =
      let others = any_connected pool rest in if is_connected pool c then true else others

  unfoldable pub pool_is_connected : LogicClientPool M → Bool
  pool_is_connected pool = elim pool.fast_client [
    | some c ↦ is_connected pool c
    | none ↦ any_connected pool pool.clients
  ]

  unfoldable pub client_count : LogicClientPool M → ℕ
  client_count pool = length pool.clients

  -- Makes a client for a logic server that is new, or that comes with another number of shards; the
  -- client that it replaces is given back, to be closed.
  unfoldable pub make_client :
      StreamSettings → LogicClientPool M → LogicStreamMeta → LogicClientPool M × ℕ
  make_client s pool m =
      let c = length pool.made in
      let fresh = record (new_logic_client s.cpus s.queue_max s.policy) {
        server_id = m.logic_id;
        address = m.addr;
      } in
      let made = record pool {
        made = pool.made ++ (init_accepted s.cpus s.send_channel_size fresh m.shard_count ∷ []);
        clients = insert m.logic_id c (erase m.logic_id pool.clients);
        zone_map = if m.zone == "" then pool.zone_map else insert m.logic_id m.zone pool.zone_map;
      } in
      (update_fast_client made, c)

  abbrev pub shards_of : LogicClientPool M → ℕ → Option ℕ
  shards_of pool c = elim (get_elem? pool.made c) [ none ↦ none | some lc ↦ some lc.total_shards ]

  -- The pool's part of Attach: the client of the stream, and the one that it replaces.
  unfoldable pub client_for :
      StreamSettings → LogicClientPool M → LogicStreamMeta → LogicClientPool M × ℕ × Option ℕ
  client_for s pool m = elim (lookup m.logic_id pool.clients) [
    | none ↦ let (made, c) = make_client s pool m in (made, c, none)
    | some c ↦
        if is_count m.shard_count (shards_of pool c)
        then (pool, c, none)
        else (let (made, c') = make_client s pool m in (made, c', some c))
  ]

  abbrev pub put_client : LogicClientPool M → ℕ → LogicClient M → LogicClientPool M
  put_client pool c lc = record pool { made = set pool.made c lc }

  unfoldable pub close_made : LogicClientPool M → ℕ → LogicClientPool M
  close_made pool c = elim (get_elem? pool.made c) [
    | none ↦ pool
    | some lc ↦ put_client pool c (close_client lc)
  ]

  abbrev pub close_stale : LogicClientPool M → Option ℕ → LogicClientPool M
  close_stale pool none = pool
  close_stale pool (some c) = close_made pool c

  -- The stream's part of Attach. The client that is replaced is closed by a goroutine, which is
  -- taken to run at once.
  unfoldable pub attach :
      StreamSettings
      → LogicClientPool M
      → LogicStreamMeta
      → ℕ
      → LogicClientPool M × Option LogicError
  attach s pool m stream =
      if pool.closed
      then (pool, some err_connection_closing)
      else (let (made, c, stale) = client_for s pool m in
          let swept = close_stale made stale in
          elim (get_elem? swept.made c) [
            | none ↦ (swept, some err_not_connected)
            | some lc ↦
                let (lc', err, flushes) = attach_shard lc m.shard_idx stream in
                (put_client swept c lc', err)
          ])

  -- What the stream's handler does at its end.
  unfoldable pub detach : LogicClientPool M → ℕ → ℕ → ℕ → LogicClientPool M
  detach pool c idx stream = elim (get_elem? pool.made c) [
    | none ↦ pool
    | some lc ↦ put_client pool c (detach_shard lc idx stream)
  ]

  unfoldable pub close_each : LogicClientPool M → Map String ℕ → LogicClientPool M
  close_each pool [] = pool
  close_each pool ((id, c) ∷ rest) = close_each (close_made pool c) rest

  unfoldable pub close : LogicClientPool M → LogicClientPool M
  close pool = record (close_each pool pool.clients) { clients = []; zone_map = []; closed = true }
