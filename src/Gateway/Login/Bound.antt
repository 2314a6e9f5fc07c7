-- ===== src/Gateway/Login/Bound.antt =====
-- internal/gateway/login.go: the calls of the connection manager that bind a user to a connection.
use sgate.Prelude.{◌≡◌, refl, String, true, false, some, if◌then◌else◌, ◌==◌, string_eq, if_cases}
use sgate.Prelude.Maps.{lookup, lookup-insert_self}
use sgate.Connection.Manager.{
  Manager, Conn, get_connection, get_user_connection, delete_if, update_connection_user_uuid,
  set_connection_account_id, set_connection_login_key,
}
use sgate.Gateway.Login.{LoginGateReq, LoginServices, full_uuid, bind_user}

-- The user's entry names the connection, which is there, of that user and on that server.
unfoldable pub IsBound : Manager → String → String → String → Type 0
IsBound cm id user server =
    (get_user_connection cm user ≡ some id)
    × ((conn : Conn) × ((get_connection cm id ≡ some conn)
          × ((conn.server_id ≡ server) × (conn.user_uuid ≡ user))))

update-IsBound :
    (cm : Manager) (id user server : String) (conn : Conn)
    → lookup id cm.connections ≡ some conn
    → conn.server_id ≡ server
    → IsBound (update_connection_user_uuid cm id user) id user server
unfolding IsBound update_connection_user_uuid get_connection get_user_connection
update-IsBound cm id user server conn here on =
    rw (here, update_connection_user_uuid)
      (
        lookup-insert_self user id (delete_if conn.user_uuid id cm.user_connections),
        (
          record conn { user_uuid = user },
          (lookup-insert_self id (record conn { user_uuid = user }) cm.connections, (on, refl)),
        ),
      )

account-IsBound :
    (cm : Manager) (id user server account : String)
    → IsBound cm id user server
    → IsBound (set_connection_account_id cm id account) id user server
unfolding IsBound set_connection_account_id get_connection get_user_connection
account-IsBound cm id user server account h =
    let conn = h.1.0 in
    let here : lookup id cm.connections ≡ some conn = h.1.1.0 in
    rw (here, set_connection_account_id)
      (if_cases (λ (m : Manager). IsBound m id user server) (account == "")
        (λ (e : (account == "") ≡ true). h)
        (λ (e : (account == "") ≡ false). (
          h.0,
          (
            record conn { account_id = account },
            (lookup-insert_self id (record conn { account_id = account }) cm.connections, h.1.1.1),
          ),
        )))

login_key-IsBound :
    (cm : Manager) (id user server key : String)
    → IsBound cm id user server
    → IsBound (set_connection_login_key cm id key) id user server
unfolding IsBound set_connection_login_key get_connection get_user_connection
login_key-IsBound cm id user server key h =
    let conn = h.1.0 in
    let here : lookup id cm.connections ≡ some conn = h.1.1.0 in
    rw (here, set_connection_login_key)
      (if_cases (λ (m : Manager). IsBound m id user server) (key == "")
        (λ (e : (key == "") ≡ true). h)
        (λ (e : (key == "") ≡ false). (
          h.0,
          (
            record conn { login_key = key },
            (lookup-insert_self id (record conn { login_key = key }) cm.connections, h.1.1.1),
          ),
        )))

pub bind_user-IsBound :
    (cm : Manager) (id : String) (req : LoginGateReq) (conn : Conn)
    → lookup id cm.connections ≡ some conn
    → conn.server_id ≡ req.server_id
    → (services : LoginServices)
    → IsBound (bind_user services cm id req) id (full_uuid req id) req.server_id
unfolding bind_user
bind_user-IsBound cm id req conn here on services =
    let user = full_uuid req id in
    let server = req.server_id in
    let bound = update-IsBound cm id user server conn here on in
    let cm1 = update_connection_user_uuid cm id user in
    let accounted =
      if_cases (λ (m : Manager). IsBound m id user server) (req.user_id == "")
        (λ (e : (req.user_id == "") ≡ true). bound)
        (λ (e : (req.user_id == "") ≡ false).
          account-IsBound cm1 id user server req.user_id bound) in
    let cm2 = if req.user_id == "" then cm1 else set_connection_account_id cm1 id req.user_id in
    if_cases (λ (m : Manager). IsBound m id user server) (req.login_key == "")
      (λ (e : (req.login_key == "") ≡ true). accounted)
      (λ (e : (req.login_key == "") ≡ false).
        login_key-IsBound cm2 id user server req.login_key accounted)
