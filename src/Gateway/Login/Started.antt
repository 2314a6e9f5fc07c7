-- ===== src/Gateway/Login/Started.antt =====
-- internal/gateway/login.go: which steps of a login take a slot.
use sgate.Prelude.{
  ℕ, suc, ◌≤◌, ◌≡◌, refl, ◌∙◌, String, Bool, true, false, not, ◌||◌, Option, none, some, ◌==◌,
  string_eq, arith, if_cases, option_cases, ap, ltb, Bool-cases, inl, inr,
}
use sgate.Prelude.Bytes.{Bytes}
use sgate.Connection.Manager.{Conn, get_connection, get_user_connection, set_connection_server_id}
use sgate.Security.RateLimit.Limiter.{RateLimiter, allow_global}
use sgate.Security.RateLimit.Limiter.Table.{allow}
use sgate.Gateway.Maintenance.{is_maintenance_target}
use sgate.Gateway.Login.{
  LoginGate, LoginGateReq, LoginServices, LoginOutcome, write_ack, acquire_login_slot,
  notify_logic_offline, close_held, close_other, close_old_login, forward_login, complete_login,
  bind_login, finish_login_gate, check_login_rate, start_login, read_login, handle_login_gate,
  validate_login_key, full_uuid, bind_user,
}

-- The same slots are there and the same number is used.
abbrev pub SameSlots : LoginGate → LoginGate → Type 0
SameSlots g g' = (g'.used_slots ≡ g.used_slots) × (g'.login_slots ≡ g.login_slots)

-- A worker was started, with a slot that was free; or none was.
abbrev pub IsStarted : LoginGate → LoginGate → Option LoginGateReq → Type 0
IsStarted g g' none = SameSlots g g'
IsStarted g g' (some req) =
    (g'.used_slots ≡ suc g.used_slots)
    × ((g'.login_slots ≡ g.login_slots) × (suc g.used_slots ≤ g.login_slots))

module _ (services : LoginServices) where
  notify-SameSlots :
      (g : LoginGate) (id : String) (conn : Conn)
      → SameSlots g (notify_logic_offline services g id conn)
  unfolding notify_logic_offline
  notify-SameSlots g id conn =
      let away = conn.server_id == "" || not (services.has_logic_client conn.server_id) in
      if_cases (λ (r : LoginGate). SameSlots g r) away (λ (e : away ≡ true). (refl, refl))
        (λ (e : away ≡ false). (refl, refl))

  held-SameSlots :
      (g : LoginGate) (old : String) (conn : Option Conn)
      → SameSlots g (close_held services g old conn)
  unfolding close_held
  held-SameSlots g old none = (refl, refl)
  held-SameSlots g old (some conn) = notify-SameSlots g old conn

  other-SameSlots :
      (g : LoginGate) (id : String) (entry : Option String)
      → SameSlots g (close_other services g id entry)
  unfolding close_other
  other-SameSlots g id none = (refl, refl)
  other-SameSlots g id (some old) =
      if_cases (λ (r : LoginGate). SameSlots g r) (old == id)
        (λ (e : (old == id) ≡ true). (refl, refl))
        (λ (e : (old == id) ≡ false). held-SameSlots g old (get_connection g.manager old))

  forward-SameSlots :
      (g : LoginGate) (req : LoginGateReq) (conn : Option Conn)
      → SameSlots g (forward_login services g req conn)
  unfolding forward_login
  forward-SameSlots g req none = (refl, refl)
  forward-SameSlots g req (some conn) = (refl, refl)

  complete-SameSlots :
      (g : LoginGate) (id : String) (req : LoginGateReq)
      → SameSlots g (complete_login services g id req)
  unfolding complete_login write_ack
  complete-SameSlots g id req =
      let cm = bind_user services g.manager id req in
      forward-SameSlots (write_ack (record g { manager = cm }) 0 "ok" id req.server_id) req
        (get_connection cm id)

  bind-SameSlots :
      (g : LoginGate) (id : String) (req : LoginGateReq)
      → SameSlots g (bind_login services g id req)
  unfolding bind_login close_old_login
  bind-SameSlots g id req =
      let g1 = record g { manager = set_connection_server_id g.manager id req.server_id } in
      let user = full_uuid req id in
      let closed = other-SameSlots g1 id (get_user_connection g1.manager user) in
      let done = complete-SameSlots (close_old_login services g1 id user) id req in
      (done.0 ∙ closed.0, done.1 ∙ closed.1)

  pub finish-SameSlots :
      (g : LoginGate) (id client_ip : String) (req : LoginGateReq)
      → SameSlots g (finish_login_gate services g id client_ip req)
  unfolding finish_login_gate write_ack
  finish-SameSlots g id client_ip req =
      let bad = not (validate_login_key services req id client_ip) in
      let shut =
        is_maintenance_target services.pool_zone services.own_zone g.maintenance req.server_id in
      if_cases (λ (r : LoginGate). SameSlots g r) bad (λ (e : bad ≡ true). (refl, refl))
        (λ (e : bad ≡ false).
          if_cases (λ (r : LoginGate). SameSlots g r) shut (λ (f : shut ≡ true). (refl, refl))
            (λ (f : shut ≡ false). bind-SameSlots g id req))

  start-IsStarted :
      (g : LoginGate) (id : String) (req : LoginGateReq)
      → let out = start_login services g id req in IsStarted g out.0 out.2
  unfolding start_login write_ack acquire_login_slot
  start-IsStarted g id req =
      let shut =
        is_maintenance_target services.pool_zone services.own_zone g.maintenance req.server_id in
      elim (Bool-cases shut) [
        | inl e ↦ rw (e, start_login) (refl, refl)
        | inr e ↦ elim (Bool-cases (ltb g.used_slots g.login_slots)) [
          | inl free ↦ rw (e, start_login, free, acquire_login_slot) (refl, (refl, ground arith))
          | inr full ↦ rw (e, start_login, full, acquire_login_slot) (refl, refl)
        ]
      ]

  read-IsStarted :
      (g : LoginGate) (id : String) (payload : Bytes)
      → let out = read_login services g id payload in IsStarted g out.0 out.2
  unfolding read_login write_ack
  read-IsStarted g id payload =
      let got = services.unmarshal_req payload in
      let bad = not got.1 || got.0.server_id == "" in
      if_cases (λ (out : LoginOutcome). IsStarted g out.0 out.2) bad
        (λ (e : bad ≡ true). (refl, refl)) (λ (e : bad ≡ false). start-IsStarted g id got.0)

  rate-SameSlots :
      (g : LoginGate) (client_ip : String) (now : ℕ)
      → SameSlots g (check_login_rate services g client_ip now).0
  unfolding check_login_rate
  rate-SameSlots g client_ip now =
      option_cases (λ (r : LoginGate × Bool). SameSlots g r.0) g.rate_limiter
        (λ (e : g.rate_limiter ≡ none). (refl, refl))
        (λ (rl : RateLimiter) (e : g.rate_limiter ≡ some rl).
          let all = allow_global rl now in
          let ip = allow services.rate_hash all.0 "ip" client_ip now in
          if_cases (λ (r : LoginGate × Bool). SameSlots g r.0) all.1
            {x = (record g { rate_limiter = some ip.0 }, ip.1)}
            {y = (record g { rate_limiter = some all.0 }, false)}
            (λ (f : all.1 ≡ true). (refl, refl)) (λ (f : all.1 ≡ false). (refl, refl)))

  after-IsStarted :
      (g g1 g' : LoginGate) (started : Option LoginGateReq)
      → SameSlots g g1
      → IsStarted g1 g' started
      → IsStarted g g' started
  after-IsStarted g g1 g' none s k = (k.0 ∙ s.0, k.1 ∙ s.1)
  after-IsStarted g g1 g' (some req) s k =
      (k.0 ∙ ap suc s.0, (k.1.0 ∙ s.1, omega (arith, k.1.1, s.0, s.1)))

  pub handle-IsStarted :
      (g : LoginGate) (id client_ip : String) (now : ℕ) (payload : Bytes)
      → let out = handle_login_gate services g id client_ip now payload in IsStarted g out.0 out.2
  unfolding handle_login_gate write_ack
  handle-IsStarted g id client_ip now payload =
      let rated = check_login_rate services g client_ip now in
      let same = rate-SameSlots g client_ip now in
      if_cases (λ (out : LoginOutcome). IsStarted g out.0 out.2) g.overloaded
        (λ (e : g.overloaded ≡ true). (refl, refl))
        (λ (e : g.overloaded ≡ false).
          if_cases (λ (out : LoginOutcome). IsStarted g out.0 out.2) rated.1
            (λ (f : rated.1 ≡ true).
              after-IsStarted g rated.0 (read_login services rated.0 id payload).0
                (read_login services rated.0 id payload).2 same (read-IsStarted rated.0 id payload))
            (λ (f : rated.1 ≡ false). same))
