-- ===== src/Connection/Scenarios.antt =====
-- The theorems on internal/connection, applied to concrete messages and managers.
use sgate.Prelude.{
  ℕ, ◌+◌, ◌-◌, ◌≤◌, ◌==◌, ◌≡◌, ◌≢◌, refl, String, Bool, true, false, List, [], ◌∷◌, none, some,
  if◌then◌else◌, length, arith, string_eq,
}
use sgate.Prelude.Int.{pos, wrap32}
use sgate.Prelude.Bytes.{Bytes}
use sgate.Prelude.Maps.{lookup, insert, erase}
use sgate.Connection.Frames.{nothing_coalesced, flush_coalesced}
use sgate.Connection.Frames.Reframe.{append_all, frames, flush-append_all}
use sgate.Connection.Manager.{
  Manager, Conn, ServerUserKey, key_eq, new_connection_manager, remove_connection, get_connection,
  get_user_connection, add_connection, can_accept, set_connection_server_id,
  update_connection_user_uuid, delete_if,
}
use sgate.Connection.Manager.Calls.{
  Call, opened, closed, server_id_set, user_uuid_updated, run, step, Fresh, AllFresh,
}
use sgate.Connection.Manager.Counts.{Counted, run-Counted}
use sgate.Connection.Manager.Opens.{OpenEvent, asked, added, called, no_opens, run_opens, step_open}
use sgate.Connection.Manager.Limits.{run_opens-limit}
use sgate.Connection.Manager.Users.{user_of, run-Routed}
use sgate.Connection.Manager.Relogin.{
  has_member, remove_connection_twice, stale_removal_drops_session,
}
use sgate.Connection.ShardedMap.{
  ShardedMap, new_sharded_map, shard_count, load, store, delete, sharded-lookup,
}
use sgate.Connection.MsgRate.{MsgWindow, check_all, allowed, check_all-allowed}

abbrev small_writes : Bytes → Bool
small_writes bs = true

flush-append_all_example :
    flush_coalesced true small_writes (append_all nothing_coalesced ((1 ∷ 2 ∷ []) ∷ (3 ∷ []) ∷ []))
    ≡ (
      nothing_coalesced,
      some (frames true ((1 ∷ 2 ∷ []) ∷ (3 ∷ []) ∷ [])),
      if small_writes (frames true ((1 ∷ 2 ∷ []) ∷ (3 ∷ []) ∷ []))
          then length {A = Bytes} ((1 ∷ 2 ∷ []) ∷ (3 ∷ []) ∷ [])
          else 0,
    )
flush-append_all_example =
    flush-append_all true small_writes (1 ∷ 2 ∷ []) ((3 ∷ []) ∷ []) (ground arith)

abbrev whole_host : String → String
whole_host addr = addr

abbrev calls : List Call
calls =
    opened "c1" "temp_1" "10.0.0.1"
    ∷ server_id_set "c1" "s1"
    ∷ user_uuid_updated "c1" "s1:u"
    ∷ opened "c2" "temp_2" "10.0.0.2"
    ∷ closed "c1"
    ∷ []

calls-AllFresh : AllFresh whole_host (new_connection_manager (pos 10) (pos 0)) calls
unfolding AllFresh Fresh run step add_connection can_accept set_connection_server_id
    update_connection_user_uuid remove_connection new_connection_manager wrap32 delete_if lookup
    insert erase get_user_connection
calls-AllFresh = (refl, (tt, (tt, (refl, (tt, tt)))))

run-Counted_example : Counted (run whole_host (new_connection_manager (pos 10) (pos 0)) calls)
run-Counted_example = run-Counted whole_host (pos 10) (pos 0) calls calls-AllFresh

run-Routed_example :
    user_of (get_connection (run whole_host (new_connection_manager (pos 10) (pos 0)) calls) "c2")
    ≡ some "temp_2"
unfolding AllFresh Fresh run step add_connection can_accept set_connection_server_id
    update_connection_user_uuid remove_connection new_connection_manager wrap32 delete_if lookup
    insert erase get_user_connection
run-Routed_example = run-Routed whole_host (pos 10) (pos 0) calls "temp_2" "c2" calls-AllFresh refl

remove_connection_twice_example :
    remove_connection whole_host
      (remove_connection whole_host
        (run whole_host (new_connection_manager (pos 10) (pos 0)) calls)
        "c2")
      "c2"
    ≡ remove_connection whole_host
        (run whole_host (new_connection_manager (pos 10) (pos 0)) calls)
        "c2"
remove_connection_twice_example =
    remove_connection_twice whole_host
      (run whole_host (new_connection_manager (pos 10) (pos 0)) calls) "c2"

-- The user "s1:u" logged in on c1, joined the group "g", and logged in again on c2.
abbrev first_conn : Conn
first_conn = record {
  user_uuid = "s1:u";
  server_id = "s1";
  account_id = "u";
  login_key = "k";
  remote_addr = "10.0.0.1";
}

abbrev user_key : ServerUserKey
user_key = record { server_id = "s1"; user_uuid = "s1:u" }

abbrev logged_in_again : Manager
logged_in_again = record {
  connections = ("c1", first_conn) ∷ ("c2", first_conn) ∷ [];
  user_connections = ("s1:u", "c2") ∷ [];
  account_connections = ("u", ("c1", tt) ∷ ("c2", tt) ∷ []) ∷ [];
  server_user_connections = (user_key, "c2") ∷ [];
  server_connections = ("s1", "c2") ∷ [];
  groups = ("g", record { name = "g"; members = (user_key, tt) ∷ [] }) ∷ [];
  count = 2;
  ip_connections = ("10.0.0.1", 2) ∷ [];
  max_connections = pos 10;
  max_connections_per_ip = pos 0;
  total_connections = 2;
  active_connections = 2;
  closed_connections = 0;
}

abbrev c1 : String
c1 = "c1"

abbrev c2 : String
c2 = "c2"

c2_is_not_c1 : c2 ≢ c1
c2_is_not_c1 e = ground (arith, string_eq.beq_iff c2 c1, e)

stale_removal_drops_session_example :
    let cm' = remove_connection whole_host logged_in_again c1 in
    (get_user_connection cm' "s1:u" ≡ some c2)
    × (lookup user_key cm'.server_user_connections ≡ none)
    × (has_member user_key (lookup "g" cm'.groups) ≡ false)
unfolding get_connection get_user_connection lookup
stale_removal_drops_session_example =
    stale_removal_drops_session whole_host logged_in_again c1 c2 first_conn "g" refl refl
      c2_is_not_c1

abbrev one_shard : String → ℕ
one_shard key = 7

abbrev no_users : ShardedMap String
no_users = new_sharded_map

sharded-lookup_example :
    (load one_shard (store one_shard no_users c1 "u") c2
      ≡ (if c1 == c2 then some "u" else load one_shard no_users c2))
    × (load one_shard (delete one_shard no_users c1) c2
        ≡ (if c1 == c2 then none else load one_shard no_users c2))
    × (length (store one_shard no_users c1 "u") ≡ shard_count)
    × (length (delete one_shard no_users c1) ≡ shard_count)
sharded-lookup_example = sharded-lookup one_shard no_users c1 c2 "u" refl

abbrev fresh_window : MsgWindow
fresh_window = record { msg_count = 0; msg_window_start = 5000 }

check_all-allowed_example :
    (check_all 2 fresh_window (5001 ∷ 5400 ∷ 5999 ∷ [])).1
    ≡ allowed (2 - 0) (length {A = ℕ} (5001 ∷ 5400 ∷ 5999 ∷ []))
check_all-allowed_example =
    check_all-allowed 2 fresh_window (5001 ∷ 5400 ∷ 5999 ∷ []) (omega arith) (ground arith)

-- One connection is the limit; two opens ask before either adds its own.
abbrev opens : List OpenEvent
opens =
    asked "10.0.0.1"
    ∷ asked "10.0.0.2"
    ∷ added "c1" "temp_1" "10.0.0.1"
    ∷ added "c2" "temp_2" "10.0.0.2"
    ∷ asked "10.0.0.3"
    ∷ called (opened "c3" "temp_3" "10.0.0.3")
    ∷ []

run_opens-limit_example :
    let s = run_opens whole_host (no_opens (new_connection_manager (pos 1) (pos 0))) opens in
    s.manager.count + s.in_flight ≤ 1 + (s.peak - 1) + s.unasked
run_opens-limit_example =
    run_opens-limit whole_host 1 (pos 0) opens (omega arith) (omega arith)
      (refl, (refl, (refl, (refl, (refl, (refl, tt))))))

three_are_held :
    (run_opens whole_host (no_opens (new_connection_manager (pos 1) (pos 0))) opens).manager.count
    ≡ 3
unfolding run_opens step_open step can_accept add_connection new_connection_manager wrap32
three_are_held = refl
