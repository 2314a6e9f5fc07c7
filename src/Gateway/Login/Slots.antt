-- ===== src/Gateway/Login/Slots.antt =====
-- internal/gateway/login.go and websocket.go with the slots of gateway.go: how many workers end
-- logins, over TCP and WebSocket, at a time.
use sgate.Prelude.{
  ℕ, suc, ◌≤◌, ◌≡◌, refl, sym, subst, ◌∙◌, String, List, [], ◌∷◌, Option, none, some, string_eq,
  arith, ap, zero,
}
use sgate.Prelude.Bytes.{Bytes}
use sgate.Gateway.Login.{
  LoginGate, LoginGateReq, LoginServices, release_login_slot, login_worker, handle_login_gate,
  finish_login_gate,
}
use sgate.Gateway.Login.Ws.{
  or_no_host, ws_login_worker, handle_ws_login_gate, handle_ws-handle, finish_ws-finish,
}
use sgate.Gateway.Login.Started.{IsStarted, finish-SameSlots, handle-IsStarted}

-- A login arrives on a connection, over TCP or a WebSocket, or a worker that was started for one ends
-- its login.
pub data Event : Type 0 where
  arrives : String → String → ℕ → Bytes → Event
  ends : String → String → LoginGateReq → Event
  ws_arrives : String → String → ℕ → Bytes → Event
  ws_ends : String → Option String → LoginGateReq → Event

abbrev workers_after : ℕ → Option LoginGateReq → ℕ
workers_after n none = n
workers_after n (some req) = suc n

module _ (services : LoginServices) where
  -- Beside the gate, the number of workers that were started and have not ended.
  unfoldable pub step : LoginGate → ℕ → Event → LoginGate × ℕ
  step g n (arrives id client_ip now payload) =
      let out = handle_login_gate services g id client_ip now payload in
      (out.0, workers_after n out.2)
  step g zero (ends id client_ip req) = (g, zero)
  step g (suc n) (ends id client_ip req) = (login_worker services g id client_ip req, n)
  step g n (ws_arrives id client_ip now payload) =
      let out = handle_ws_login_gate services g id client_ip now payload in
      (out.0, workers_after n out.1)
  step g zero (ws_ends id remote req) = (g, zero)
  step g (suc n) (ws_ends id remote req) = (ws_login_worker services g id remote req, n)

  unfoldable pub run : LoginGate → ℕ → List Event → LoginGate × ℕ
  run g n [] = (g, n)
  run g n (event ∷ events) = let next = step g n event in run next.0 next.1 events

  abbrev IsCounted : ℕ → LoginGate → ℕ → Type 0
  IsCounted slots g n = (g.used_slots ≡ n) × ((g.login_slots ≡ slots) × (n ≤ slots))

  started-IsCounted :
      (slots n : ℕ) (g g' : LoginGate) (started : Option LoginGateReq)
      → IsCounted slots g n
      → IsStarted g g' started
      → IsCounted slots g' (workers_after n started)
  started-IsCounted slots n g g' none h k = (k.0 ∙ h.0, (k.1 ∙ h.1.0, h.1.1))
  started-IsCounted slots n g g' (some req) h k =
      (k.0 ∙ ap suc h.0, (k.1.0 ∙ h.1.0, omega (arith, k.1.1, h.0, h.1.0)))

  handle-IsCounted :
      (slots n : ℕ) (g : LoginGate) (id client_ip : String) (now : ℕ) (payload : Bytes)
      → IsCounted slots g n
      → let out = handle_login_gate services g id client_ip now payload in
        IsCounted slots out.0 (workers_after n out.2)
  handle-IsCounted slots n g id client_ip now payload h =
      let out = handle_login_gate services g id client_ip now payload in
      started-IsCounted slots n g out.0 out.2 h
        (handle-IsStarted services g id client_ip now payload)

  released-IsCounted :
      (slots n : ℕ) (g : LoginGate) (id client_ip : String) (req : LoginGateReq)
      → IsCounted slots g (suc n)
      → IsCounted slots (release_login_slot (finish_login_gate services g id client_ip req)) n
  unfolding release_login_slot
  released-IsCounted slots n g id client_ip req h =
      let same = finish-SameSlots services g id client_ip req in
      (omega (arith, same.0, h.0), (same.1 ∙ h.1.0, omega (arith, h.1.1)))

  step-IsCounted :
      (slots n : ℕ) (g : LoginGate) (event : Event)
      → IsCounted slots g n
      → IsCounted slots (step g n event).0 (step g n event).1
  unfolding step login_worker ws_login_worker
  step-IsCounted slots n g (arrives id client_ip now payload) h =
      handle-IsCounted slots n g id client_ip now payload h
  step-IsCounted slots zero g (ends id client_ip req) h = h
  step-IsCounted slots (suc n) g (ends id client_ip req) h =
      released-IsCounted slots n g id client_ip req h
  step-IsCounted slots n g (ws_arrives id client_ip now payload) h =
      subst
        (λ (out : LoginGate × Option LoginGateReq). IsCounted slots out.0 (workers_after n out.1))
        (sym (handle_ws-handle services g id client_ip now payload))
        (handle-IsCounted slots n g id client_ip now payload h)
  step-IsCounted slots zero g (ws_ends id remote req) h = h
  step-IsCounted slots (suc n) g (ws_ends id remote req) h =
      subst (λ (g' : LoginGate). IsCounted slots (release_login_slot g') n)
        (sym (finish_ws-finish services g id remote req))
        (released-IsCounted slots n g id (or_no_host remote) req h)

  run-IsCounted :
      (slots n : ℕ) (g : LoginGate) (events : List Event)
      → IsCounted slots g n
      → IsCounted slots (run g n events).0 (run g n events).1
  unfolding run
  run-IsCounted slots n g [] h = h
  run-IsCounted slots n g (event ∷ events) h =
      run-IsCounted slots (step g n event).1 (step g n event).0 events
        (step-IsCounted slots n g event h)

  -- From a gate of which no slot is used, however logins arrive over TCP and WebSockets and their
  -- workers end, the slots in use are as many as the workers that were started and have not ended,
  -- and these are never more than the gate's slots, whose number stays.
  pub run-slots :
      (g : LoginGate) (events : List Event)
      → g.used_slots ≡ 0
      → let r = run g 0 events in
        (r.0.used_slots ≡ r.1) × ((r.0.login_slots ≡ g.login_slots) × (r.1 ≤ g.login_slots))
  run-slots g events h = run-IsCounted g.login_slots 0 g events (h, (refl, omega arith))
