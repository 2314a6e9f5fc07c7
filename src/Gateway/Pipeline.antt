-- ===== src/Gateway/Pipeline.antt =====
-- internal/gateway/pipeline.go, MessagePipeline.Process: a client's message through all its stages.
-- The copy of data that share memory with the message that came (stage 5.5) is that of a value here.
pub mod State
pub mod Guards
pub mod Handed
pub mod Admission
pub mod Admitted
mod Scenarios
use sgate.Prelude.{
  ℕ, suc, ◌/◌, String, Bool, true, false, not, ◌&&◌, List, [], ◌∷◌, Option, none, some,
  if◌then◌else◌, ◌==◌, string_eq,
}
use sgate.Prelude.Int.{ℤ, pos, ltb_ℤ}
use sgate.Prelude.Bytes.{Bytes}
use sgate.Prelude.Maps.{lookup}
use sgate.Types.StreamData.{StreamData, is_zero}
use sgate.Backend.Queue.{LogicError, err_not_connected}
use sgate.Security.Breaker.{CircuitBreaker, record_failure, record_success}
use sgate.Traffic.Degradation.{record_route_result}
use sgate.Gateway.Pipeline.State.{
  action_none, action_close, err_missing_cmd, err_no_conn, err_forward, PipelineConn, Gateway,
  Surroundings,
}
use sgate.Gateway.Pipeline.Guards.{
  Outcome, is_none, dropped, refused, auth_dropped, check_overload, check_login, check_msg_rate,
  find_client, security_disabled, check_lists, check_rates, check_waf, get_or_create_breaker,
  put_breaker, check_breaker, check_integrity, apply_forward_filters,
}

abbrev pub or_else : String → String → String
or_else s other = if s == "" then other else s

module _ {C : Type 0} where
  -- The message of the fast path, which carries no address.
  unfoldable pub fast_message : String → PipelineConn C → StreamData → StreamData
  fast_message id conn message = record {
    session_id = id;
    user_key = conn.user_uuid;
    client_ip = "";
    cmd = message.cmd;
    seq_id = message.seq_id;
    data_bytes = message.data_bytes;
  }

  -- The message after the filters, which may have made it already.
  unfoldable pub full_message :
      String → PipelineConn C → StreamData → Option StreamData → StreamData
  full_message id conn message none = record {
    session_id = id;
    user_key = conn.user_uuid;
    client_ip = conn.remote_host;
    cmd = if ltb_ℤ (pos 0) message.cmd then message.cmd else pos 0;
    seq_id = message.seq_id;
    data_bytes = message.data_bytes;
  }
  full_message id conn message (some msg) = record msg {
    user_key = or_else msg.user_key conn.user_uuid;
    client_ip = or_else msg.client_ip conn.remote_host;
    cmd = if ltb_ℤ (pos 0) message.cmd && is_zero msg.cmd then message.cmd else msg.cmd;
    seq_id =
        if is_zero msg.seq_id && not (is_zero message.seq_id) then message.seq_id else msg.seq_id;
  }

abbrev pub send_to : {C : Type 0} → Surroundings C → Option C → StreamData → Option LogicError
send_to env none msg = some err_not_connected
send_to env (some c) msg = env.send_message c msg

module _ {C S : Type 0} (env : Surroundings C) (now : ℕ) where
  unfoldable pub record_breaker : Gateway C S → String → Bool → Gateway C S
  record_breaker g route_key failed = elim (get_or_create_breaker env now g route_key) [
    | none ↦ g
    | some made ↦
        put_breaker env now g made.0 route_key
          (if failed then record_failure made.1 now else record_success made.1)
  ]

  unfoldable pub record_degradation : Gateway C S → String → Bool → Gateway C S
  record_degradation g route_key failed = elim g.degradation [
    | none ↦ g
    | some m ↦ record g {
      degradation = some (record_route_result env.reached m route_key failed (now / 1000000000));
    }
  ]

  -- Stages 6 and 7.
  unfoldable pub forward : Gateway C S → Option C → String → StreamData → Outcome C S
  forward g client route_key msg = elim (send_to env client msg) [
    | some err ↦
        let counted = record g {
          counters = record g.counters { failed = suc g.counters.failed };
        } in
        (
          record_degradation (record_breaker counted route_key true) route_key true,
          record { action = action_none; error = some (err_forward err); proto_msg = some msg },
        )
    | none ↦
        let counted = record g {
          counters = record g.counters {
            forwarded = suc g.counters.forwarded;
            processed = suc g.counters.processed;
          };
          handed = msg ∷ g.handed;
        } in
        (
          record_degradation (record_breaker counted route_key false) route_key false,
          record { action = action_none; error = none; proto_msg = some msg },
        )
  ]

  -- Stages 3 to 5, with `payload` the frame as it came.
  unfoldable pub secured :
      Gateway C S → String → PipelineConn C → Option C → Bytes → StreamData → Outcome C S
  secured g id conn client payload message =
      let route_key = env.itoa message.cmd in
      check_lists env now g conn.remote_host (
        check_rates env now g conn.remote_host route_key (λ g1. check_waf env now g1 payload (λ g2.
          check_breaker env now g2 route_key (λ g3. check_integrity env now g3 id message (λ g4.
            apply_forward_filters env now g4 id conn message
              (λ g5 made. forward g5 client route_key (full_message id conn message made)))))))

  -- The fast path without any security, or the secured one.
  unfoldable pub dispatch :
      Gateway C S → String → PipelineConn C → Option C → Bytes → StreamData → Outcome C S
  dispatch g id conn client payload message =
      if security_disabled env now g && (not g.tracing && is_none g.degradation)
      then forward g client "" (fast_message id conn message)
      else secured g id conn client payload message

  -- From stage 2 on, for the connection that was found.
  unfoldable pub process_for :
      Gateway C S → String → PipelineConn C → Bytes → StreamData → Outcome C S
  process_for g id conn payload message = check_login env now g conn message.cmd (
      check_msg_rate env now g id conn (λ g1 conn1.
        find_client env now g1 id conn1
          (λ g2 conn2 client. dispatch g2 id conn2 client payload message)))

  unfoldable pub process : Gateway C S → Bytes → StreamData → String → Outcome C S
  process g payload message id = check_overload env now g (
      if is_zero message.cmd
      then refused g g.counters action_none err_missing_cmd
      else (elim (lookup id g.connections) [
        | none ↦ refused g (auth_dropped env now g) action_close err_no_conn
        | some conn ↦ process_for g id conn payload message
      ]))
