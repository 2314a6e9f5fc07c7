-- ===== src/Connection/Manager/Counts.antt =====
-- What a connection manager's counters say of its connections after any sequence of calls
-- (internal/connection/manager.go).
use sgate.Prelude.{
  ◌+◌, ◌≡◌, String, List, [], ◌∷◌, none, some, length, string_eq, arith, Option-cases, inl, inr,
}
use sgate.Prelude.Int.{ℤ}
use sgate.Prelude.Maps.{
  lookup, insert, NodupKeys, insert-NodupKeys, erase-NodupKeys, length-insert_new,
  length-insert_old, length-erase,
}
use sgate.Connection.Manager.{
  Manager, Conn, ServerUserKey, new_connection_manager, update_limits, add_connection,
  remove_connection, set_connection_server_id, set_connection_account_id, set_connection_login_key,
  update_connection_user_uuid,
}
use sgate.Connection.Manager.Groups.{
  add_user_to_group, remove_user_from_group, create_group, delete_group,
}
use sgate.Connection.Manager.Calls.{
  Call, opened, limits_updated, closed, server_id_set, account_id_set, login_key_set,
  user_uuid_updated, joined_group, left_group, group_created, group_deleted, step, Fresh, run,
  AllFresh,
}

-- One entry for each connection; the counters are their number, and the connections ever opened
-- are those that are active and those that were closed.
abbrev pub Counted : Manager → Type 0
Counted cm =
    NodupKeys cm.connections
    × (cm.count ≡ length cm.connections)
    × (cm.active_connections ≡ length cm.connections)
    × (cm.total_connections ≡ cm.active_connections + cm.closed_connections)

new_connection_manager-Counted :
    (max_conn max_conn_per_ip : ℤ) → Counted (new_connection_manager max_conn max_conn_per_ip)
unfolding new_connection_manager
new_connection_manager-Counted max_conn max_conn_per_ip = ground arith

-- A call that leaves the number of connections as it is.
kept :
    (cm : Manager) (id : String) (conn conn' : Conn)
    → lookup id cm.connections ≡ some conn
    → NodupKeys cm.connections
    → NodupKeys (insert id conn' cm.connections)
      × (length (insert id conn' cm.connections) ≡ length cm.connections)
kept cm id conn conn' h c =
    (insert-NodupKeys id conn' cm.connections c, length-insert_old id conn' conn cm.connections h)

add-Counted :
    (host : String → String) (cm : Manager) (id user addr : String)
    → lookup id cm.connections ≡ none
    → Counted cm
    → Counted (add_connection host cm id user addr)
unfolding add_connection
add-Counted host cm id user addr fresh c =
    let conn : Conn = record {
      user_uuid = user;
      server_id = "";
      account_id = "";
      login_key = "";
      remote_addr = addr;
    } in
    (
      insert-NodupKeys id conn cm.connections c.0,
      ground (arith, c, length-insert_new id conn cm.connections fresh),
      ground (arith, c, length-insert_new id conn cm.connections fresh),
      ground (arith, c),
    )

remove-Counted :
    (host : String → String) (cm : Manager) (id : String)
    → Counted cm
    → Counted (remove_connection host cm id)
unfolding remove_connection
remove-Counted host cm id c = elim (Option-cases (lookup id cm.connections)) [
  | inl gone ↦ rw (gone, remove_connection) c
  | inr (conn, here) ↦
      rw (here, remove_connection)
        (
          erase-NodupKeys id cm.connections c.0,
          ground (arith, c, length-erase id conn cm.connections c.0 here),
          ground (arith, c, length-erase id conn cm.connections c.0 here),
          ground (arith, c, length-erase id conn cm.connections c.0 here),
        )
]

-- The same connection under its identifier again, or with some fields changed.
Same : Manager → Manager → Type 0
Same cm cm' =
    NodupKeys cm'.connections
    × (length cm'.connections ≡ length cm.connections)
    × (cm'.count ≡ cm.count)
    × (cm'.active_connections ≡ cm.active_connections)
    × (cm'.total_connections ≡ cm.total_connections)
    × (cm'.closed_connections ≡ cm.closed_connections)

Same-Counted : (cm cm' : Manager) → Same cm cm' → Counted cm → Counted cm'
unfolding Same
Same-Counted cm cm' same c =
    (same.0, ground (arith, c, same), ground (arith, c, same), ground (arith, c, same))

set_server_id-Same :
    (cm : Manager) (id value : String)
    → NodupKeys cm.connections
    → Same cm (set_connection_server_id cm id value)
unfolding set_connection_server_id Same
set_server_id-Same cm id value c = elim (Option-cases (lookup id cm.connections)) [
  | inl gone ↦ ground (arith, gone)
  | inr (conn, here) ↦
      ground (arith, here, kept cm id conn (record conn { server_id = value }) here c)
]

set_account_id-Same :
    (cm : Manager) (id value : String)
    → NodupKeys cm.connections
    → Same cm (set_connection_account_id cm id value)
unfolding set_connection_account_id Same
set_account_id-Same cm id value c = elim (Option-cases (lookup id cm.connections)) [
  | inl gone ↦ ground (arith, gone)
  | inr (conn, here) ↦
      ground (arith, here, kept cm id conn (record conn { account_id = value }) here c)
]

set_login_key-Same :
    (cm : Manager) (id value : String)
    → NodupKeys cm.connections
    → Same cm (set_connection_login_key cm id value)
unfolding set_connection_login_key Same
set_login_key-Same cm id value c = elim (Option-cases (lookup id cm.connections)) [
  | inl gone ↦ ground (arith, gone)
  | inr (conn, here) ↦
      ground (arith, here, kept cm id conn (record conn { login_key = value }) here c)
]

update_user_uuid-Same :
    (cm : Manager) (id value : String)
    → NodupKeys cm.connections
    → Same cm (update_connection_user_uuid cm id value)
unfolding update_connection_user_uuid Same
update_user_uuid-Same cm id value c = elim (Option-cases (lookup id cm.connections)) [
  | inl gone ↦ ground (arith, gone)
  | inr (conn, here) ↦
      ground (arith, here, kept cm id conn (record conn { user_uuid = value }) here c)
]

left_group-Same :
    (cm : Manager) (group : String) (key : ServerUserKey)
    → NodupKeys cm.connections
    → Same cm (remove_user_from_group cm group key)
unfolding remove_user_from_group Same
left_group-Same cm group key c = ground (arith, c)

created_group-Same :
    (cm : Manager) (group name : String)
    → NodupKeys cm.connections
    → Same cm (create_group cm group name)
unfolding create_group Same
created_group-Same cm group name c = ground (arith, c)

step-Counted :
    (host : String → String) (cm : Manager) (call : Call)
    → Fresh host cm call
    → Counted cm
    → Counted (step host cm call)
unfolding step Fresh
step-Counted host cm (opened id user addr) f c = add-Counted host cm id user addr f c
step-Counted host cm (limits_updated max_conn max_conn_per_ip) f c = unfold update_limits in c
step-Counted host cm (closed id) f c = remove-Counted host cm id c
step-Counted host cm (server_id_set id value) f c =
    Same-Counted cm (set_connection_server_id cm id value) (set_server_id-Same cm id value c.0) c
step-Counted host cm (account_id_set id value) f c =
    Same-Counted cm (set_connection_account_id cm id value) (set_account_id-Same cm id value c.0) c
step-Counted host cm (login_key_set id value) f c =
    Same-Counted cm (set_connection_login_key cm id value) (set_login_key-Same cm id value c.0) c
step-Counted host cm (user_uuid_updated id value) f c =
    Same-Counted cm (update_connection_user_uuid cm id value)
      (update_user_uuid-Same cm id value c.0) c
step-Counted host cm (joined_group group key) f c = unfold add_user_to_group in c
step-Counted host cm (left_group group key) f c =
    Same-Counted cm (remove_user_from_group cm group key) (left_group-Same cm group key c.0) c
step-Counted host cm (group_created group name) f c =
    Same-Counted cm (create_group cm group name) (created_group-Same cm group name c.0) c
step-Counted host cm (group_deleted group) f c = unfold delete_group in c

counts_kept :
    (host : String → String) (cm : Manager) (calls : List Call)
    → AllFresh host cm calls
    → Counted cm
    → Counted (run host cm calls)
unfolding run AllFresh
counts_kept host cm [] f c = c
counts_kept host cm (call ∷ calls) f c =
    counts_kept host (step host cm call) calls f.1 (step-Counted host cm call f.0 c)

-- After any calls on a new manager, with fresh identifiers for the connections that open: no
-- identifier is held twice, the count and the number of active connections are the number of
-- connections held, and the connections ever opened are the active and the closed ones.
pub run-Counted :
    (host : String → String) (max_conn max_conn_per_ip : ℤ) (calls : List Call)
    → AllFresh host (new_connection_manager max_conn max_conn_per_ip) calls
    → Counted (run host (new_connection_manager max_conn max_conn_per_ip) calls)
run-Counted host max_conn max_conn_per_ip calls f =
    counts_kept host (new_connection_manager max_conn max_conn_per_ip) calls f
      (new_connection_manager-Counted max_conn max_conn_per_ip)
