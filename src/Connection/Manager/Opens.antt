-- ===== src/Connection/Manager/Opens.antt =====
-- Opens of connections that ask for the limit and opens that do not
-- (internal/connection/manager.go, with OnOpen of internal/gateway/handlers.go). OnOpen asks
-- CanAccept and then calls AddConnection, with no lock around both, on several event loops;
-- handleTCPRequest and internal/gateway/websocket.go add a connection without asking.
use sgate.Prelude.{
  ℕ, zero, suc, ◌+◌, String, Bool, true, false, List, [], ◌∷◌, if◌then◌else◌, leb, string_eq,
}
use sgate.Connection.Manager.{Manager, can_accept, add_connection}
use sgate.Connection.Manager.Calls.{
  Call, opened, limits_updated, closed, server_id_set, account_id_set, login_key_set,
  user_uuid_updated, joined_group, left_group, group_created, group_deleted,
}
use sgate.Connection.Manager.Calls.{step as step_call}

-- CanAccept is asked for an address; an open that was let through adds its connection; any other
-- call, among them an AddConnection that did not ask.
pub data OpenEvent : Type 0 where
  asked : String → OpenEvent
  added : String → String → String → OpenEvent
  called : Call → OpenEvent

-- Beside the manager: the opens that were let through and have not added their connection yet, the
-- most that there were of these at a time, and the connections that were added without asking.
pub record Opens : Type 0 where
  pub manager : Manager
  pub in_flight : ℕ
  pub peak : ℕ
  pub unasked : ℕ

abbrev pub larger : ℕ → ℕ → ℕ
larger a b = if leb a b then b else a

abbrev pub adds : Call → ℕ
adds (opened id user addr) = 1
adds (limits_updated max_conn max_conn_per_ip) = 0
adds (closed id) = 0
adds (server_id_set id server) = 0
adds (account_id_set id account) = 0
adds (login_key_set id key) = 0
adds (user_uuid_updated id user) = 0
adds (joined_group group key) = 0
adds (left_group group key) = 0
adds (group_created group name) = 0
adds (group_deleted group) = 0

-- Whether an event leaves the limits as they are.
abbrev pub keeps_limits : OpenEvent → Bool
keeps_limits (asked ip) = true
keeps_limits (added id user addr) = true
keeps_limits (called (opened id user addr)) = true
keeps_limits (called (limits_updated max_conn max_conn_per_ip)) = false
keeps_limits (called (closed id)) = true
keeps_limits (called (server_id_set id server)) = true
keeps_limits (called (account_id_set id account)) = true
keeps_limits (called (login_key_set id key)) = true
keeps_limits (called (user_uuid_updated id user)) = true
keeps_limits (called (joined_group group key)) = true
keeps_limits (called (left_group group key)) = true
keeps_limits (called (group_created group name)) = true
keeps_limits (called (group_deleted group)) = true

abbrev pub no_opens : Manager → Opens
no_opens cm = record { manager = cm; in_flight = 0; peak = 0; unasked = 0 }

module _ (host : String → String) where
  unfoldable pub step_open : Opens → OpenEvent → Opens
  step_open s (asked ip) =
      if can_accept s.manager ip
      then record s { in_flight = suc s.in_flight; peak = larger s.peak (suc s.in_flight) }
      else s
  step_open s (added id user addr) = elim s.in_flight [
    | zero ↦ s
    | suc n ↦ record s { manager = add_connection host s.manager id user addr; in_flight = n }
  ]
  step_open s (called call) = record s {
    manager = step_call host s.manager call;
    unasked = s.unasked + adds call;
  }

  unfoldable pub run_opens : Opens → List OpenEvent → Opens
  run_opens s [] = s
  run_opens s (event ∷ events) = run_opens (step_open s event) events
