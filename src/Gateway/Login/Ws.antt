-- ===== src/Gateway/Login/Ws.antt =====
-- internal/gateway/websocket.go: a login over a WebSocket, the part of its message handler for
-- CmdLoginGate and finishWSLoginGate. Logins of both kinds take the same slots. Acks go to the
-- list of acks; an error of writing one is not modelled.
use sgate.Prelude.{
  ℕ, suc, ◌≡◌, refl, String, Bool, true, false, not, ◌||◌, Option, none, some, if◌then◌else◌, ltb,
  ◌==◌, string_eq, Bool-cases, inl, inr,
}
use sgate.Prelude.Bytes.{Bytes}
use sgate.Gateway.Maintenance.{is_maintenance_target}
use sgate.Gateway.Login.{
  LoginGate, LoginGateReq, LoginServices, LoginOutcome, write_ack, acquire_login_slot,
  release_login_slot, validate_login_key, bind_login, finish_login_gate, check_login_rate,
  start_login, read_login, handle_login_gate,
}

-- The host of a connection's address, which is empty where there is none.
abbrev pub or_no_host : Option String → String
or_no_host none = ""
or_no_host (some host) = host

module _ (services : LoginServices) where
  unfoldable pub finish_ws_login_gate :
      LoginGate → String → Option String → LoginGateReq → LoginGate
  finish_ws_login_gate g id remote req =
      if not (validate_login_key services req id (or_no_host remote))
      then write_ack g 401 "invalid login key" id req.server_id
      else if is_maintenance_target services.pool_zone services.own_zone g.maintenance req.server_id
      then write_ack g 503 "server in maintenance" id req.server_id
      else bind_login services g id req

  -- The worker's whole run, with its deferred release of the slot.
  unfoldable pub ws_login_worker : LoginGate → String → Option String → LoginGateReq → LoginGate
  ws_login_worker g id remote req = release_login_slot (finish_ws_login_gate g id remote req)

  -- A server in maintenance does not close the connection here.
  unfoldable pub start_ws_login :
      LoginGate → String → LoginGateReq → LoginGate × Option LoginGateReq
  start_ws_login g id req =
      if is_maintenance_target services.pool_zone services.own_zone g.maintenance req.server_id
      then (write_ack g 503 "server in maintenance" id req.server_id, none)
      else (let (g', got) = acquire_login_slot g in
          if got
          then (g', some req)
          else (write_ack g' 429 "too many concurrent logins" id req.server_id, none))

  unfoldable pub read_ws_login : LoginGate → String → Bytes → LoginGate × Option LoginGateReq
  read_ws_login g id payload =
      let (req, readable) = services.unmarshal_req payload in
      if not readable || req.server_id == ""
      then (write_ack g 400 "invalid login gate request" id req.server_id, none)
      else start_ws_login g id req

  unfoldable pub handle_ws_login_gate :
      LoginGate → String → String → ℕ → Bytes → LoginGate × Option LoginGateReq
  handle_ws_login_gate g id client_ip now payload =
      if g.overloaded
      then (let counted = record g {
        overload_dropped = suc g.overload_dropped;
        dropped_overload = suc g.dropped_overload;
      } in
          (write_ack counted 503 "server overload" id "", none))
      else (let (g', passes) = check_login_rate services g client_ip now in
          let counted = record g' { dropped_rate_limit = suc g'.dropped_rate_limit } in
          if passes
          then read_ws_login g' id payload
          else (write_ack counted 429 "rate limited" id "", none))

  -- The gate, and the request whose worker was started.
  abbrev without_action : LoginOutcome → LoginGate × Option LoginGateReq
  without_action out = (out.0, out.2)

  chosen :
      (b : Bool) {a c : LoginGate × Option LoginGateReq} (a' c' : LoginOutcome)
      → a ≡ without_action a'
      → c ≡ without_action c'
      → (if b then a else c) ≡ without_action (if b then a' else c')
  chosen true a' c' e f = e
  chosen false a' c' e f = f

  start_ws-start :
      (g : LoginGate) (id : String) (req : LoginGateReq)
      → start_ws_login g id req ≡ without_action (start_login services g id req)
  unfolding start_ws_login start_login acquire_login_slot
  start_ws-start g id req =
      let shut =
        is_maintenance_target services.pool_zone services.own_zone g.maintenance req.server_id in
      elim (Bool-cases shut) [
        | inl e ↦ rw (e, start_ws_login, start_login) refl
        | inr e ↦ elim (Bool-cases (ltb g.used_slots g.login_slots)) [
          | inl free ↦ rw (e, start_ws_login, start_login, free, acquire_login_slot) refl
          | inr full ↦ rw (e, start_ws_login, start_login, full, acquire_login_slot) refl
        ]
      ]

  read_ws-read :
      (g : LoginGate) (id : String) (payload : Bytes)
      → read_ws_login g id payload ≡ without_action (read_login services g id payload)
  unfolding read_ws_login read_login
  read_ws-read g id payload =
      let got = services.unmarshal_req payload in
      chosen (not got.1 || got.0.server_id == "") _ _ refl (start_ws-start g id got.0)

  -- A login over a WebSocket changes the gate, and starts a worker, as one over TCP does.
  pub handle_ws-handle :
      (g : LoginGate) (id client_ip : String) (now : ℕ) (payload : Bytes)
      → handle_ws_login_gate g id client_ip now payload
        ≡ without_action (handle_login_gate services g id client_ip now payload)
  unfolding handle_ws_login_gate handle_login_gate
  handle_ws-handle g id client_ip now payload =
      let rated = check_login_rate services g client_ip now in
      chosen g.overloaded _ _ refl (chosen rated.1 _ _ (read_ws-read rated.0 id payload) refl)

  -- It ends as one over TCP does, from the same host or from none.
  pub finish_ws-finish :
      (g : LoginGate) (id : String) (remote : Option String) (req : LoginGateReq)
      → finish_ws_login_gate g id remote req
        ≡ finish_login_gate services g id (or_no_host remote) req
  unfolding finish_ws_login_gate finish_login_gate
  finish_ws-finish g id remote req = refl
