-- ===== src/Gateway/Login/Scenarios.antt =====
-- The theorem on the end of a login, applied to a user who logs in on a
-- second connection; and that on the slots.
use sgate.Prelude.{String, true, false, [], some, none, refl, ◌≡◌, ◌≤◌, List, ◌∷◌}
use sgate.Prelude.Int.{pos}
use sgate.Prelude.Bytes.{Bytes}
use sgate.Connection.Manager.{Manager, Conn, new_connection_manager, add_connection, get_connection}
use sgate.Prelude.Maps.{lookup, insert}
use sgate.Gateway.Maintenance.{new_maintenance_state}
use sgate.Gateway.Login.{LoginGate, LoginGateReq, LoginServices, finish_login_gate}
use sgate.Gateway.Login.Slots.{Event, arrives, ends, ws_arrives, ws_ends, run, run-slots}
use sgate.Gateway.Login.Finish.{Finished, is_allowed, finish_login_gate-Finished}

abbrev request : LoginGateReq
request = record { user_id = "ann"; login_key = "key"; server_id = "s1" }

abbrev services : LoginServices
services = record {
  validation_enabled = true;
  validate_login_token = λ (account key id ip server : String). some true;
  unmarshal_req = λ (b : Bytes). (request, true);
  has_logic_client = λ (server : String). true;
  pool_zone = λ (server : String). "";
  own_zone = "z1";
  rate_hash = λ (key : String). 0;
}

abbrev host : String → String
host address = address

-- The user's first connection, and the new one that is not yet bound.
abbrev manager : Manager
manager =
    add_connection host
      (add_connection host (new_connection_manager (pos 10) (pos 0)) "c1" "s1:ann" "10.0.0.1") "c2"
      "c2" "10.0.0.2"

abbrev gate : LoginGate
gate = record {
  overloaded = false;
  overload_dropped = 0;
  dropped_overload = 0;
  dropped_rate_limit = 0;
  rate_limiter = none;
  maintenance = new_maintenance_state;
  used_slots = 1;
  login_slots = 8;
  manager = manager;
  acks = [];
  closings = [];
  offline = [];
  forwarded = [];
}

abbrev second : Conn
second = record {
  user_uuid = "c2";
  server_id = "";
  account_id = "";
  login_key = "";
  remote_addr = "10.0.0.2";
}

finish_login_gate-Finished_example :
    Finished services
      (is_allowed services gate "c2" "10.0.0.2" request)
      gate
      (finish_login_gate services gate "c2" "10.0.0.2" request)
      "c2"
      request
unfolding get_connection add_connection new_connection_manager lookup insert
finish_login_gate-Finished_example =
    finish_login_gate-Finished services gate "c2" "10.0.0.2" request second refl

abbrev free_gate : LoginGate
free_gate = record gate { used_slots = 0 }

abbrev events : List Event
events =
    arrives "c2" "10.0.0.2" 5 (1 ∷ [])
    ∷ ends "c2" "10.0.0.2" request
    ∷ ws_arrives "c1" "10.0.0.1" 6 (1 ∷ [])
    ∷ arrives "c2" "10.0.0.2" 7 (1 ∷ [])
    ∷ ws_ends "c1" (some "10.0.0.1") request
    ∷ []

run-slots_example :
    let r = run services free_gate 0 events in
    (r.0.used_slots ≡ r.1)
    × ((r.0.login_slots ≡ free_gate.login_slots) × (r.1 ≤ free_gate.login_slots))
run-slots_example = run-slots services free_gate events refl
