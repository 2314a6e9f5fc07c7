-- ===== src/Gateway/Login/Finish.antt =====
-- internal/gateway/login.go, finishLoginGate: how a login ends.
use sgate.Prelude.{
  ℕ, ◌≡◌, refl, sym, ap, ◌∙◌, subst, String, Bool, true, false, not, ◌&&◌, List, ◌∷◌, ◌++◌, some,
  if◌then◌else◌, string_eq,
}
use sgate.Prelude.Maps.{lookup, lookup-insert_self}
use sgate.Connection.Manager.{Manager, Conn, get_connection, set_connection_server_id}
use sgate.Gateway.Maintenance.{is_maintenance_target}
use sgate.Gateway.Login.{
  LoginGateReq, LoginGateAck, LoginGate, LoginServices, full_uuid, validate_login_key, bind_login,
  finish_login_gate, close_old_login, write_ack, forward_login, complete_login,
}
use sgate.Gateway.Login.Bound.{IsBound, bind_user-IsBound}
use sgate.Gateway.Login.Displaced.{displaced, close_old-IsClosedOnly, displaced-set_server}

module _ (services : LoginServices) where
  -- What a login's worker checks: the key, and that the server is in no maintenance.
  unfoldable pub is_allowed : LoginGate → String → String → LoginGateReq → Bool
  is_allowed g id client_ip req =
      validate_login_key services req id client_ip
      && not
          (is_maintenance_target services.pool_zone services.own_zone g.maintenance req.server_id)

  abbrev ok_ack : String → LoginGateReq → LoginGateAck
  ok_ack id req = record { code = 0; message = "ok"; session_id = id; server_id = req.server_id }

  -- How a login ends that is let through, and one that is not.
  unfoldable pub Finished : Bool → LoginGate → LoginGate → String → LoginGateReq → Type 0
  Finished true g g' id req =
      IsBound g'.manager id (full_uuid req id) req.server_id
      × ((g'.acks ≡ ok_ack id req ∷ g.acks)
          × ((g'.forwarded ≡ (req.server_id, full_uuid req id) ∷ g.forwarded)
              × (g'.closings ≡ displaced g.manager id (full_uuid req id) ++ g.closings)))
  Finished false g g' id req =
      (g'.manager ≡ g.manager) × ((g'.forwarded ≡ g.forwarded) × (g'.closings ≡ g.closings))

  complete-Finished :
      (g : LoginGate) (id : String) (req : LoginGateReq) (conn : Conn)
      → lookup id g.manager.connections ≡ some conn
      → conn.server_id ≡ req.server_id
      → let g' = complete_login services g id req in
        IsBound g'.manager id (full_uuid req id) req.server_id
        × ((g'.acks ≡ ok_ack id req ∷ g.acks)
            × ((g'.forwarded ≡ (req.server_id, full_uuid req id) ∷ g.forwarded)
                × (g'.closings ≡ g.closings)))
  unfolding complete_login write_ack forward_login IsBound
  complete-Finished g id req conn here on =
      let bound = bind_user-IsBound g.manager id req conn here on services in
      rw (bound.1.1.0, complete_login, forward_login)
        (
          bound,
          (refl, (ap (λ (user : String). (req.server_id, user) ∷ g.forwarded) bound.1.1.1.1, refl)),
        )

  set_server-here :
      (cm : Manager) (id server : String) (conn : Conn)
      → lookup id cm.connections ≡ some conn
      → lookup id (set_connection_server_id cm id server).connections
        ≡ some (record conn { server_id = server })
  unfolding set_connection_server_id
  set_server-here cm id server conn here =
      rw (here, set_connection_server_id)
        (lookup-insert_self id (record conn { server_id = server }) cm.connections)

  bind_login-Finished :
      (g : LoginGate) (id : String) (req : LoginGateReq) (conn : Conn)
      → lookup id g.manager.connections ≡ some conn
      → Finished true g (bind_login services g id req) id req
  unfolding Finished bind_login
  bind_login-Finished g id req conn here =
      let user = full_uuid req id in
      let m1 = set_connection_server_id g.manager id req.server_id in
      let g1 = record g { manager = m1 } in
      let moved = record conn { server_id = req.server_id } in
      let closed = close_old-IsClosedOnly services g1 id user in
      let done =
        complete-Finished (close_old_login services g1 id user) id req moved
          (subst (λ (m : Manager). lookup id m.connections ≡ some moved) (sym closed.0)
            (set_server-here g.manager id req.server_id conn here))
          refl in
      (
        done.0,
        (
          done.1.0 ∙ ap (λ (acks : List LoginGateAck). ok_ack id req ∷ acks) closed.1.0,
          (
            done.1.1.0
                ∙ ap (λ (sent : List (String × String)). (req.server_id, user) ∷ sent) closed.1.1.0,
            done.1.1.1
                ∙ (closed.1.1.1
                    ∙ ap (λ (ids : List String). ids ++ g.closings)
                        (displaced-set_server services g.manager id req.server_id user conn here)),
          ),
        ),
      )

  checked-Finished :
      (g a b c : LoginGate) (id : String) (req : LoginGateReq) (valid target : Bool)
      → Finished false g a id req
      → Finished false g b id req
      → Finished true g c id req
      → Finished (valid && not target) g (if not valid then a else if target then b else c) id req
  checked-Finished g a b c id req false target fa fb fc = fa
  checked-Finished g a b c id req true true fa fb fc = fb
  checked-Finished g a b c id req true false fa fb fc = fc

  write_ack-Finished :
      (g : LoginGate) (id text : String) (code : ℕ) (req : LoginGateReq)
      → Finished false g (write_ack g code text id req.server_id) id req
  unfolding Finished write_ack
  write_ack-Finished g id text code req = (refl, (refl, refl))

  -- A worker that ends the login of a connection which the manager holds does one of two things.
  -- With a key that is valid (or not asked for) and a server out of maintenance, the index of users
  -- names this connection for the user of that server, the connection is there with this user and
  -- server, one ack of code 0 and one message to the server go out, and the other connection that
  -- the index named, if the manager holds it, is closed. Else the manager is as before, and nothing
  -- is forwarded or closed.
  pub finish_login_gate-Finished :
      (g : LoginGate) (id client_ip : String) (req : LoginGateReq) (conn : Conn)
      → get_connection g.manager id ≡ some conn
      → Finished
          (is_allowed g id client_ip req)
          g
          (finish_login_gate services g id client_ip req)
          id
          req
  unfolding is_allowed finish_login_gate get_connection
  finish_login_gate-Finished g id client_ip req conn here =
      checked-Finished g (write_ack g 401 "invalid login key" id req.server_id)
        (write_ack g 503 "server in maintenance" id req.server_id) (bind_login services g id req) id
        req (validate_login_key services req id client_ip)
        (is_maintenance_target services.pool_zone services.own_zone g.maintenance req.server_id)
        (write_ack-Finished g id "invalid login key" 401 req)
        (write_ack-Finished g id "server in maintenance" 503 req)
        (bind_login-Finished g id req conn here)
