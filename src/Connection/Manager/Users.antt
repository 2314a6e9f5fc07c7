-- ===== src/Connection/Manager/Users.antt =====
-- Who a user's messages go to: the index of users in the connection manager
-- (internal/connection/manager.go).
use sgate.Prelude.{
  ◌≡◌, String, true, List, [], ◌∷◌, Option, none, some, string_eq, Eq, arith, Option-cases, inl,
  inr, ◌≢◌,
}
use sgate.Prelude.Int.{ℤ}
use sgate.Prelude.Maps.{Map, lookup, lookup-insert, lookup-erase}
use sgate.Connection.Manager.{
  Manager, Conn, ServerUserKey, key_eq, new_connection_manager, update_limits, add_connection,
  remove_connection, set_connection_server_id, set_connection_account_id, set_connection_login_key,
  update_connection_user_uuid, delete_if, get_user_connection, get_connection,
}
use sgate.Connection.Manager.Groups.{
  add_user_to_group, remove_user_from_group, create_group, delete_group,
}
use sgate.Connection.Manager.Calls.{
  Call, opened, limits_updated, closed, server_id_set, account_id_set, login_key_set,
  user_uuid_updated, joined_group, left_group, group_created, group_deleted, step, Fresh, run,
  AllFresh,
}

unfoldable pub user_of : Option Conn → Option String
user_of none = none
user_of (some conn) = some conn.user_uuid

-- The connection that a user's entry names is there, and is that user's.
unfoldable pub Routed : Manager → Type 0
Routed cm =
    (user id : String)
    → get_user_connection cm user ≡ some id
    → user_of (get_connection cm id) ≡ some user

lookup-delete_if :
    {K : Type 0} ⦃e : Eq K⦄ (k j : K) (v w : String) (m : Map K String)
    → lookup j (delete_if k v m) ≡ some w
    → (lookup j m ≡ some w) × ((e.beq k j ≡ true) → w ≢ v)
unfolding delete_if
lookup-delete_if ⦃e⦄ k j v w m h = elim (Option-cases (lookup k m)) [
  | inl gone ↦ ground (arith, gone, e.beq_iff k j)
  | inr (cur, here) ↦
      ground (arith, here, lookup-erase k j m, e.beq_iff k j, string_eq.beq_iff cur v)
]

remove-Routed :
    (host : String → String) (cm : Manager) (gone : String)
    → Routed cm
    → Routed (remove_connection host cm gone)
unfolding remove_connection Routed get_user_connection get_connection user_of
remove-Routed host cm gone r user id h = elim (Option-cases (lookup gone cm.connections)) [
  | inl absent ↦ ground (arith, absent, r user id)
  | inr (conn, here) ↦ ground (
    arith,
    here,
    r user id,
    lookup-erase gone id cm.connections,
    lookup-delete_if conn.user_uuid user gone id cm.user_connections,
    string_eq.beq_iff gone id,
    string_eq.beq_iff conn.user_uuid user,
  )
]

update-Routed :
    (cm : Manager) (changed value : String)
    → Routed cm
    → Routed (update_connection_user_uuid cm changed value)
unfolding update_connection_user_uuid Routed get_user_connection get_connection user_of
update-Routed cm changed value r user id h = elim (Option-cases (lookup changed cm.connections)) [
  | inl absent ↦ ground (arith, absent, r user id)
  | inr (conn, here) ↦ ground (
    arith,
    here,
    r user id,
    lookup-insert changed id (record conn { user_uuid = value }) cm.connections,
    lookup-insert value user changed (delete_if conn.user_uuid changed cm.user_connections),
    lookup-delete_if conn.user_uuid user changed id cm.user_connections,
    string_eq.beq_iff changed id,
    string_eq.beq_iff conn.user_uuid user,
    string_eq.beq_iff value user,
  )
]

open-Routed :
    (host : String → String) (cm : Manager) (new user' addr : String)
    → lookup new cm.connections ≡ none
    → Routed cm
    → Routed (add_connection host cm new user' addr)
unfolding add_connection Routed get_user_connection get_connection user_of
open-Routed host cm new user' addr fresh r user id h = ground (
  arith,
  r user id,
  fresh,
  lookup-insert new id
      (record {
        user_uuid = user';
        server_id = "";
        account_id = "";
        login_key = "";
        remote_addr = addr;
      })
      cm.connections,
  lookup-insert user' user new cm.user_connections,
  string_eq.beq_iff new id,
  string_eq.beq_iff user' user,
)

set_server-Routed :
    (cm : Manager) (changed value : String)
    → Routed cm
    → Routed (set_connection_server_id cm changed value)
unfolding set_connection_server_id Routed get_user_connection get_connection user_of
set_server-Routed cm changed value r user id h =
    elim (Option-cases (lookup changed cm.connections)) [
      | inl absent ↦ ground (arith, absent, r user id)
      | inr (conn, here) ↦ ground (
        arith,
        here,
        r user id,
        string_eq.beq_iff changed id,
        lookup-insert changed id (record conn { server_id = value }) cm.connections,
      )
    ]

set_account-Routed :
    (cm : Manager) (changed value : String)
    → Routed cm
    → Routed (set_connection_account_id cm changed value)
unfolding set_connection_account_id Routed get_user_connection get_connection user_of
set_account-Routed cm changed value r user id h =
    elim (Option-cases (lookup changed cm.connections)) [
      | inl absent ↦ ground (arith, absent, r user id)
      | inr (conn, here) ↦ ground (
        arith,
        here,
        r user id,
        string_eq.beq_iff changed id,
        lookup-insert changed id (record conn { account_id = value }) cm.connections,
      )
    ]

set_login_key-Routed :
    (cm : Manager) (changed value : String)
    → Routed cm
    → Routed (set_connection_login_key cm changed value)
unfolding set_connection_login_key Routed get_user_connection get_connection user_of
set_login_key-Routed cm changed value r user id h =
    elim (Option-cases (lookup changed cm.connections)) [
      | inl absent ↦ ground (arith, absent, r user id)
      | inr (conn, here) ↦ ground (
        arith,
        here,
        r user id,
        string_eq.beq_iff changed id,
        lookup-insert changed id (record conn { login_key = value }) cm.connections,
      )
    ]

left_group-Routed :
    (cm : Manager) (group : String) (key : ServerUserKey)
    → Routed cm
    → Routed (remove_user_from_group cm group key)
unfolding remove_user_from_group Routed get_user_connection get_connection
left_group-Routed cm group key r user id h = ground (arith, r user id)

created_group-Routed :
    (cm : Manager) (group name : String) → Routed cm → Routed (create_group cm group name)
unfolding create_group Routed get_user_connection get_connection
created_group-Routed cm group name r user id h = ground (arith, r user id)

step-Routed :
    (host : String → String) (cm : Manager) (call : Call)
    → Fresh host cm call
    → Routed cm
    → Routed (step host cm call)
unfolding step Fresh
step-Routed host cm (opened id user addr) f r = open-Routed host cm id user addr f r
step-Routed host cm (limits_updated max_conn max_conn_per_ip) f r =
    unfold update_limits in
    unfold Routed in unfold get_connection in unfold get_user_connection in r
step-Routed host cm (closed id) f r = remove-Routed host cm id r
step-Routed host cm (server_id_set id value) f r = set_server-Routed cm id value r
step-Routed host cm (account_id_set id value) f r = set_account-Routed cm id value r
step-Routed host cm (login_key_set id value) f r = set_login_key-Routed cm id value r
step-Routed host cm (user_uuid_updated id value) f r = update-Routed cm id value r
step-Routed host cm (joined_group group key) f r =
    unfold add_user_to_group in
    unfold Routed in unfold get_connection in unfold get_user_connection in r
step-Routed host cm (left_group group key) f r = left_group-Routed cm group key r
step-Routed host cm (group_created group name) f r = created_group-Routed cm group name r
step-Routed host cm (group_deleted group) f r =
    unfold delete_group in unfold Routed in unfold get_connection in unfold get_user_connection in r

routes_kept :
    (host : String → String) (cm : Manager) (calls : List Call)
    → AllFresh host cm calls
    → Routed cm
    → Routed (run host cm calls)
unfolding run AllFresh
routes_kept host cm [] f r = r
routes_kept host cm (call ∷ calls) f r =
    routes_kept host (step host cm call) calls f.1 (step-Routed host cm call f.0 r)

-- After any calls on a new manager, with fresh identifiers for the connections that open, a user
-- that the index of users knows has a connection: if the entry names one, the manager holds it, and
-- its user is this user.
pub run-Routed :
    (host : String → String) (max_conn max_conn_per_ip : ℤ) (calls : List Call) (user id : String)
    → AllFresh host (new_connection_manager max_conn max_conn_per_ip) calls
    → let cm = run host (new_connection_manager max_conn max_conn_per_ip) calls in
      get_user_connection cm user ≡ some id → user_of (get_connection cm id) ≡ some user
unfolding Routed
run-Routed host max_conn max_conn_per_ip calls user id f =
    routes_kept host (new_connection_manager max_conn max_conn_per_ip) calls f
      (unfold get_user_connection in
        unfold new_connection_manager in unfold lookup in λ user id h. ground (arith, h))
      user id
