-- ===== src/Connection/Manager.antt =====
-- internal/connection/manager.go and group.go: the manager of connections. A connection is changed
-- through its entry in `connections`, the one place that holds it. `host` stands for
-- netutil.Host (streasure/util), the address without its port. The identifier of a new connection
-- (GenerateConnectionID) is an argument. UpdateConnectionIP is not modelled: a connection keeps its
-- address. The counters are int32 and are not taken to their end.
pub mod Groups
pub mod Calls
pub mod Counts
pub mod Opens
pub mod Limits
pub mod Users
pub mod Relogin
use sgate.Prelude.{
  ℕ, zero, suc, ◌+◌, ◌-◌, String, Bool, true, false, not, ◌&&◌, ◌||◌, nat_beq, ◌↔◌, List, [], ◌∷◌,
  Option, none, some, if◌then◌else◌, ltb, leb, length, ◌==◌, string_eq, Eq, beq_refl, arith, ◌≡◌,
  refl,
}
use sgate.Prelude.Int.{ℤ, pos, negsuc, ltb_ℤ, leb_ℤ, wrap32}
use sgate.Prelude.Maps.{Map, lookup, insert, erase}

-- The fields of a Connection that the manager reads or sets; an unset string is empty.
pub record Conn : Type 0 where
  pub user_uuid : String
  pub server_id : String
  pub account_id : String
  pub login_key : String
  pub remote_addr : String

pub record ServerUserKey : Type 0 where
  pub server_id : String
  pub user_uuid : String

unfoldable pub key_beq : ServerUserKey → ServerUserKey → Bool
key_beq a b = (a.server_id == b.server_id) && (a.user_uuid == b.user_uuid)

pub key_beq_iff : (a b : ServerUserKey) → (key_beq a b ≡ true) ↔ (a ≡ b)
unfolding key_beq
key_beq_iff a b =
    ground
      (arith, string_eq.beq_iff a.server_id b.server_id, string_eq.beq_iff a.user_uuid b.user_uuid)

instance abbrev pub key_eq : Eq ServerUserKey
key_eq = record { beq = key_beq; beq_iff = key_beq_iff }

-- A ConnectionGroupInfo; a set is a map to `Unit`.
pub record Group : Type 0 where
  pub name : String
  pub members : Map ServerUserKey Unit

pub record Manager : Type 0 where
  pub connections : Map String Conn
  pub user_connections : Map String String
  pub account_connections : Map String (Map String Unit)
  pub server_user_connections : Map ServerUserKey String
  pub server_connections : Map String String
  pub groups : Map String Group
  pub count : ℕ
  pub ip_connections : Map String ℕ
  -- 0 is no limit; so is a negative one.
  pub max_connections : ℤ
  pub max_connections_per_ip : ℤ
  pub total_connections : ℕ
  pub active_connections : ℕ
  pub closed_connections : ℕ

unfoldable pub new_connection_manager : ℤ → ℤ → Manager
new_connection_manager max_conn max_conn_per_ip = record {
  connections = [];
  user_connections = [];
  account_connections = [];
  server_user_connections = [];
  server_connections = [];
  groups = [];
  count = 0;
  ip_connections = [];
  max_connections = wrap32 max_conn;
  max_connections_per_ip = wrap32 max_conn_per_ip;
  total_connections = 0;
  active_connections = 0;
  closed_connections = 0;
}

-- A limit that is negative stays as it is.
unfoldable pub update_limits : Manager → ℤ → ℤ → Manager
update_limits cm max_conn max_conn_per_ip = record cm {
  max_connections = if leb_ℤ (pos 0) max_conn then wrap32 max_conn else cm.max_connections;
  max_connections_per_ip =
      if leb_ℤ (pos 0) max_conn_per_ip then wrap32 max_conn_per_ip else cm.max_connections_per_ip;
}

abbrev pub or_zero : Option ℕ → ℕ
or_zero none = 0
or_zero (some n) = n

unfoldable pub can_accept : Manager → String → Bool
can_accept cm remote_ip =
    if ltb_ℤ (pos 0) cm.max_connections && leb_ℤ cm.max_connections (pos cm.count)
    then false
    else if ltb_ℤ (pos 0) cm.max_connections_per_ip && not (remote_ip == "")
    then not (leb_ℤ cm.max_connections_per_ip (pos (or_zero (lookup remote_ip cm.ip_connections))))
    else true

unfoldable pub increment_ip : String → Map String ℕ → Map String ℕ
increment_ip remote_ip ips =
    if remote_ip == "" then ips else insert remote_ip (or_zero (lookup remote_ip ips) + 1) ips

unfoldable pub decrement_ip : String → Map String ℕ → Map String ℕ
decrement_ip remote_ip ips =
    if remote_ip == ""
    then ips
    else if leb (or_zero (lookup remote_ip ips)) 1
    then erase remote_ip ips
    else insert remote_ip (or_zero (lookup remote_ip ips) - 1) ips

-- DeleteIf: the entry goes only if it holds that value.
unfoldable pub delete_if : {K : Type 0} ⦃e : Eq K⦄ → K → String → Map K String → Map K String
delete_if k v m = elim (lookup k m) [ none ↦ m | some cur ↦ if cur == v then erase k m else m ]

unfoldable pub add_connection : (String → String) → Manager → String → String → String → Manager
add_connection host cm connection_id user_uuid remote_addr = record cm {
  connections =
      insert connection_id
        (record {
          user_uuid = user_uuid;
          server_id = "";
          account_id = "";
          login_key = "";
          remote_addr = remote_addr;
        })
        cm.connections;
  user_connections = insert user_uuid connection_id cm.user_connections;
  count = cm.count + 1;
  total_connections = cm.total_connections + 1;
  active_connections = cm.active_connections + 1;
  ip_connections = increment_ip (host remote_addr) cm.ip_connections;
}

unfoldable pub get_connection : Manager → String → Option Conn
get_connection cm connection_id = lookup connection_id cm.connections

unfoldable pub get_user_connection : Manager → String → Option String
get_user_connection cm user_uuid = lookup user_uuid cm.user_connections

-- removeAccountConnection: an empty set goes with its key.
unfoldable pub remove_account_connection :
    String → String → Map String (Map String Unit) → Map String (Map String Unit)
remove_account_connection account_id connection_id accounts = elim (lookup account_id accounts) [
  | none ↦ accounts
  | some ids ↦
      let left = erase connection_id ids in
      if nat_beq (length left) 0 then erase account_id accounts else insert account_id left accounts
]

-- RemoveMember for every group; the groups that it leaves empty go.
unfoldable pub remove_member_from_all_groups : ServerUserKey → Map String Group → Map String Group
remove_member_from_all_groups key [] = []
remove_member_from_all_groups key ((g, group) ∷ groups) =
    let left = erase key group.members in
    let rest = remove_member_from_all_groups key groups in
    if nat_beq (length left) 0 then rest else (g, record group { members = left }) ∷ rest

-- `count` and `active_connections` are at least 1 here (Counts), so that `- 1` does not stop at 0.
unfoldable pub remove_connection : (String → String) → Manager → String → Manager
remove_connection host cm connection_id = elim (lookup connection_id cm.connections) [
  | none ↦ cm
  | some conn ↦
      let key : ServerUserKey = record { server_id = conn.server_id; user_uuid = conn.user_uuid } in
      record cm {
        connections = erase connection_id cm.connections;
        user_connections = delete_if conn.user_uuid connection_id cm.user_connections;
        account_connections =
            if conn.account_id == ""
            then cm.account_connections
            else remove_account_connection conn.account_id connection_id cm.account_connections;
        server_user_connections = erase key cm.server_user_connections;
        server_connections =
            if conn.server_id == ""
            then cm.server_connections
            else erase conn.server_id cm.server_connections;
        groups = remove_member_from_all_groups key cm.groups;
        ip_connections = decrement_ip (host conn.remote_addr) cm.ip_connections;
        count = cm.count - 1;
        active_connections = cm.active_connections - 1;
        closed_connections = cm.closed_connections + 1;
      }
]

unfoldable pub set_connection_server_id : Manager → String → String → Manager
set_connection_server_id cm connection_id server_id = elim (lookup connection_id cm.connections) [
  | none ↦ cm
  | some conn ↦ record cm {
    connections = insert connection_id (record conn { server_id = server_id }) cm.connections;
    server_connections = insert server_id connection_id cm.server_connections;
  }
]

abbrev pub or_empty : {K V : Type 0} → Option (Map K V) → Map K V
or_empty none = []
or_empty (some m) = m

unfoldable pub set_connection_account_id : Manager → String → String → Manager
set_connection_account_id cm connection_id account_id = elim (lookup connection_id cm.connections) [
  | none ↦ cm
  | some conn ↦ if account_id == "" then cm else record cm {
    connections = insert connection_id (record conn { account_id = account_id }) cm.connections;
    account_connections =
        insert account_id
          (insert connection_id tt (or_empty (lookup account_id cm.account_connections)))
          cm.account_connections;
  }
]

unfoldable pub set_connection_login_key : Manager → String → String → Manager
set_connection_login_key cm connection_id login_key = elim (lookup connection_id cm.connections) [
  | none ↦ cm
  | some conn ↦ if login_key == "" then cm else record cm {
    connections = insert connection_id (record conn { login_key = login_key }) cm.connections;
  }
]

unfoldable pub update_connection_user_uuid : Manager → String → String → Manager
update_connection_user_uuid cm connection_id user_uuid =
    elim (lookup connection_id cm.connections) [
      | none ↦ cm
      | some conn ↦
          let old_key : ServerUserKey = record {
            server_id = conn.server_id;
            user_uuid = conn.user_uuid;
          } in
          let new_key : ServerUserKey = record {
            server_id = conn.server_id;
            user_uuid = user_uuid;
          } in
          let cleared =
            if conn.user_uuid == "" || conn.user_uuid == user_uuid
            then cm.server_user_connections
            else delete_if old_key connection_id cm.server_user_connections in
          record cm {
            connections =
                insert connection_id (record conn { user_uuid = user_uuid }) cm.connections;
            user_connections =
                insert user_uuid connection_id
                  (delete_if conn.user_uuid connection_id cm.user_connections);
            server_user_connections = insert new_key connection_id cleared;
          }
    ]
