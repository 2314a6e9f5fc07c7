-- ===== src/Gateway/Login.antt =====
-- internal/gateway/login.go: a client's login, first on the event loop (handleLoginGate), then on a
-- worker (finishLoginGate), with the slots of internal/gateway/gateway.go. protobuf, the login
-- server and the pool of logic clients are parameters, in `LoginServices`. What is written to
-- clients and asked of connections is kept in lists, the newest first: the acks, the connections
-- that are closed, the notices that a user went offline, the messages for a logic server. The notice's
-- mark on its connection, and the tries of a forwarded login, are not modelled.
pub mod Bound
pub mod Displaced
pub mod Finish
pub mod Ws
pub mod Started
pub mod Slots
mod Scenarios
use sgate.Prelude.{
  ℕ, suc, ◌-◌, String, Bool, true, false, not, ◌||◌, List, [], ◌∷◌, Option, none, some,
  if◌then◌else◌, ltb, nat_beq, ◌==◌, string_eq,
}
use sgate.Prelude.Bytes.{Bytes}
use sgate.Connection.Manager.{
  Manager, Conn, get_connection, get_user_connection, set_connection_server_id,
  update_connection_user_uuid, set_connection_account_id, set_connection_login_key,
}
use sgate.Security.RateLimit.Limiter.{RateLimiter, allow_global}
use sgate.Security.RateLimit.Limiter.Table.{allow}
use sgate.Gateway.Maintenance.{MaintenanceState, is_maintenance_target}
use Prim.Native.String.{◌++◌ as str_append}

pub record LoginGateReq : Type 0 where
  pub user_id : String
  pub login_key : String
  pub server_id : String

pub record LoginGateAck : Type 0 where
  pub code : ℕ
  pub message : String
  pub session_id : String
  pub server_id : String

pub record LoginGate : Type 0 where
  pub overloaded : Bool
  pub overload_dropped : ℕ
  pub dropped_overload : ℕ
  pub dropped_rate_limit : ℕ
  pub rate_limiter : Option RateLimiter
  pub maintenance : MaintenanceState
  pub used_slots : ℕ
  pub login_slots : ℕ
  pub manager : Manager
  pub acks : List LoginGateAck
  pub closings : List String
  pub offline : List String
  pub forwarded : List (String × String)

-- `validate_login_token` is the login server's answer for an account, a key, a connection, an
-- address and a server; there is none if no server can be asked or the call fails. `unmarshal_req`
-- says whether it could read all, beside what it read.
pub record LoginServices : Type 0 where
  pub validation_enabled : Bool
  pub validate_login_token : String → String → String → String → String → Option Bool
  pub unmarshal_req : Bytes → LoginGateReq × Bool
  pub pool_zone : String → String
  pub own_zone : String
  pub has_logic_client : String → Bool
  pub rate_hash : String → ℕ

pub data LoginAction : Type 0 where
  login_none login_close : LoginAction

-- What a login leaves to the event loop, and the request whose worker was started.
abbrev pub LoginOutcome : Type 0
LoginOutcome = LoginGate × LoginAction × Option LoginGateReq

unfoldable pub write_ack : LoginGate → ℕ → String → String → String → LoginGate
write_ack g code text session_id server_id = record g {
  acks =
      record { code = code; message = text; session_id = session_id; server_id = server_id }
      ∷ g.acks;
}

unfoldable pub acquire_login_slot : LoginGate → LoginGate × Bool
acquire_login_slot g =
    if ltb g.used_slots g.login_slots
    then (record g { used_slots = suc g.used_slots }, true)
    else (g, false)

-- Releasing where no slot is used does nothing.
unfoldable pub release_login_slot : LoginGate → LoginGate
release_login_slot g = record g { used_slots = g.used_slots - 1 }

abbrev pub or_else : String → String → String
or_else s other = if s == "" then other else s

-- The name of a user on a server.
abbrev pub full_uuid : LoginGateReq → String → String
full_uuid req id = str_append req.server_id (str_append ":" (or_else req.user_id id))

module _ (services : LoginServices) where
  -- A notice that a connection's user went offline, if its server can be reached.
  unfoldable pub notify_logic_offline : LoginGate → String → Conn → LoginGate
  notify_logic_offline g id conn =
      if conn.server_id == "" || not (services.has_logic_client conn.server_id)
      then g
      else record g { offline = id ∷ g.offline }

  unfoldable pub validate_login_key : LoginGateReq → String → String → Bool
  validate_login_key req id client_ip =
      if not services.validation_enabled
      then true
      else elim (services.validate_login_token req.user_id req.login_key id client_ip
          req.server_id) [ none ↦ false | some valid ↦ valid ]

  unfoldable pub close_held : LoginGate → String → Option Conn → LoginGate
  close_held g old none = g
  close_held g old (some conn) =
      let told = notify_logic_offline g old conn in record told { closings = old ∷ told.closings }

  unfoldable pub close_other : LoginGate → String → Option String → LoginGate
  close_other g id none = g
  close_other g id (some old) =
      if old == id then g else close_held g old (get_connection g.manager old)

  -- The connection that the user had before, if it is another one, is closed.
  unfoldable pub close_old_login : LoginGate → String → String → LoginGate
  close_old_login g id user = close_other g id (get_user_connection g.manager user)

  -- The calls of the connection manager that bind a connection to its user, one after the other.
  unfoldable pub bind_user : Manager → String → LoginGateReq → Manager
  bind_user cm id req =
      let cm1 = update_connection_user_uuid cm id (full_uuid req id) in
      let cm2 = if req.user_id == "" then cm1 else set_connection_account_id cm1 id req.user_id in
      if req.login_key == "" then cm2 else set_connection_login_key cm2 id req.login_key

  unfoldable pub forward_login : LoginGate → LoginGateReq → Option Conn → LoginGate
  forward_login g req none = g
  forward_login g req (some conn) = record g {
    forwarded = (req.server_id, conn.user_uuid) ∷ g.forwarded;
  }

  unfoldable pub complete_login : LoginGate → String → LoginGateReq → LoginGate
  complete_login g id req =
      let cm = bind_user g.manager id req in
      forward_login (write_ack (record g { manager = cm }) 0 "ok" id req.server_id) req
        (get_connection cm id)

  unfoldable pub bind_login : LoginGate → String → LoginGateReq → LoginGate
  bind_login g id req =
      let g1 = record g { manager = set_connection_server_id g.manager id req.server_id } in
      complete_login (close_old_login g1 id (full_uuid req id)) id req

  unfoldable pub finish_login_gate : LoginGate → String → String → LoginGateReq → LoginGate
  finish_login_gate g id client_ip req =
      if not (validate_login_key req id client_ip)
      then write_ack g 401 "invalid login key" id req.server_id
      else if is_maintenance_target services.pool_zone services.own_zone g.maintenance req.server_id
      then write_ack g 503 "server in maintenance" id req.server_id
      else bind_login g id req

  -- The worker's whole run, with its deferred release of the slot.
  unfoldable pub login_worker : LoginGate → String → String → LoginGateReq → LoginGate
  login_worker g id client_ip req = release_login_slot (finish_login_gate g id client_ip req)

  unfoldable pub check_login_rate : LoginGate → String → ℕ → LoginGate × Bool
  check_login_rate g client_ip now = elim g.rate_limiter [
    | none ↦ (g, true)
    | some rl ↦
        let (rl1, all_pass) = allow_global rl now in
        let (rl2, ip_passes) = allow services.rate_hash rl1 "ip" client_ip now in
        if all_pass
        then (record g { rate_limiter = some rl2 }, ip_passes)
        else (record g { rate_limiter = some rl1 }, false)
  ]

  -- What follows on a request that could be read.
  unfoldable pub start_login : LoginGate → String → LoginGateReq → LoginOutcome
  start_login g id req =
      if is_maintenance_target services.pool_zone services.own_zone g.maintenance req.server_id
      then (write_ack g 503 "server in maintenance" id req.server_id, login_close, none)
      else (let (g', got) = acquire_login_slot g in
          if got
          then (g', login_none, some req)
          else (write_ack g' 429 "too many concurrent logins" id req.server_id, login_none, none))

  unfoldable pub read_login : LoginGate → String → Bytes → LoginOutcome
  read_login g id payload =
      let (req, readable) = services.unmarshal_req payload in
      if not readable || req.server_id == ""
      then (write_ack g 400 "invalid login gate request" id req.server_id, login_none, none)
      else start_login g id req

  unfoldable pub handle_login_gate : LoginGate → String → String → ℕ → Bytes → LoginOutcome
  handle_login_gate g id client_ip now payload =
      if g.overloaded
      then (let counted = record g {
        overload_dropped = suc g.overload_dropped;
        dropped_overload = suc g.dropped_overload;
      } in
          (write_ack counted 503 "server overload" id "", login_none, none))
      else (let (g', passes) = check_login_rate g client_ip now in
          let counted = record g' { dropped_rate_limit = suc g'.dropped_rate_limit } in
          if passes
          then read_login g' id payload
          else (write_ack counted 429 "rate limited" id "", login_none, none))
