-- ===== src/Gateway/Pipeline/Scenarios.antt =====
-- The theorems on the message pipeline, its workers and its replay check, applied to a gateway with
-- lists and one connection.
use sgate.Prelude.{
  ℕ, ◌≡◌, refl, String, true, false, List, [], ◌∷◌, ◌++◌, Option, none, some, arith, string_eq,
}
use sgate.Prelude.Int.{ℤ, pos, negsuc}
use sgate.Prelude.Maps.{lookup, insert}
use sgate.Connection.MsgRate.{check_and_increment_msg_rate}
use sgate.Types.StreamData.{StreamData}
use sgate.Backend.Queue.{LogicError}
use sgate.Security.Whitelist.{WhitelistBlacklist, is_in_blacklist, is_in_whitelist, whitelist_empty}
use sgate.Gateway.Integrity.{
  message_key, MessageIntegrity, new_message_integrity, process_message, replay_detected,
}
use sgate.Gateway.Integrity.Replay.{IntegrityCall, comes, sweeps, later_calls, replay_refused}
use sgate.Gateway.Pipeline.State.{PipelineConn, Counters, Gateway, Surroundings}
use sgate.Gateway.Pipeline.{
  process, process_for, dispatch, secured, forward, full_message, record_breaker,
  record_degradation,
}
use sgate.Gateway.Pipeline.Guards.{
  check_overload, check_login, is_pre_auth_command, contains, check_msg_rate, find_client,
  security_disabled, check_lists, check_rates, check_waf, check_breaker, get_or_create_breaker,
  check_integrity, apply_forward_filters,
}
use sgate.Gateway.Pipeline.Admitted.{Ended, process-Ended}
use sgate.Gateway.Workers.{PipelineWorkerPool, new_pipeline_worker_pool}
use sgate.Gateway.Workers.Order.{
  PoolCall, submits, works, of_connection, pool_calls, waiting, new_pool-IsSharded,
  pool_calls-order,
}

abbrev sum_hash : String → ℕ
sum_hash s = 7

abbrev sign : ℤ → String
sign (pos n) = "+"
sign (negsuc n) = "-"

abbrev one_client : String → Option ℕ
one_client server = some 1

abbrev takes_all : ℕ → StreamData → Option LogicError
takes_all c msg = none

abbrev env : Surroundings ℕ
env = record {
  pre_auth_commands = [];
  max_messages_per_conn = 10;
  verify_inbound = true;
  login_bind_grace = 5000;
  rate_hash = sum_hash;
  fnv = sum_hash;
  itoa = sign;
  atoi = λ s. none;
  reached = λ a b. false;
  get_logic_client = one_client;
  is_connected = λ c. true;
  send_message = takes_all;
}

abbrev none_counted : Counters
none_counted = record {
  dropped_overload = 0;
  dropped_auth = 0;
  dropped_rate_limit = 0;
  dropped_no_logic_not_connected = 0;
  dropped_blacklist = 0;
  dropped_waf = 0;
  dropped_circuit = 0;
  dropped_integrity = 0;
  dropped_filter_chain = 0;
  failed = 0;
  forwarded = 0;
  processed = 0;
}

abbrev conn : PipelineConn ℕ
conn = record {
  server_id = "s1";
  user_uuid = "s1:u";
  remote_host = "10.0.0.1";
  created_at = 0;
  window = record { msg_count = 0; msg_window_start = 0 };
  logic_client = none;
  jwt_jti = "";
  jwt_exp = pos 0;
}

abbrev listed : WhitelistBlacklist
listed = record { whitelist = ("10.0.0.1", tt) ∷ []; blacklist = ("10.0.0.2", tt) ∷ [] }

abbrev gateway : Gateway ℕ Unit
gateway = record {
  overloaded = false;
  overload_dropped = 0;
  connections = ("c1", conn) ∷ [];
  whitelist_blacklist = some listed;
  rate_limiter = none;
  waf = none;
  circuit_breaker_mgr = none;
  breaker_params = none;
  message_integrity = new_message_integrity (pos 30000);
  filter_chain = none;
  filter_state = tt;
  degradation = none;
  tracing = false;
  counters = none_counted;
  handed = [];
}

abbrev message : StreamData
message = record {
  session_id = "";
  user_key = "";
  client_ip = "";
  cmd = pos 1200001;
  seq_id = pos 5;
  data_bytes = 1 ∷ 2 ∷ [];
}

process-Ended_example :
    Ended env 9000000000 gateway message "c1" (process env 9000000000 gateway [] message "c1")
process-Ended_example = process-Ended env 9000000000 gateway [] message "c1"

-- The message is taken.
taken : (process env 9000000000 gateway [] message "c1").0.counters.forwarded ≡ 1
unfolding process check_overload process_for dispatch check_login is_pre_auth_command contains
    check_msg_rate check_and_increment_msg_rate find_client security_disabled secured check_lists
    is_in_blacklist is_in_whitelist whitelist_empty check_rates check_waf check_breaker
    get_or_create_breaker check_integrity process_message message_key new_message_integrity
    apply_forward_filters forward full_message record_breaker record_degradation lookup insert
taken = refl

abbrev integrity : MessageIntegrity
integrity = new_message_integrity (pos 30000)

abbrev later : List IntegrityCall
later = comes "c2" message 1500 ∷ sweeps 20000 ∷ []

replay_refused_example :
    (process_message sum_hash sign
      (later_calls sum_hash sign
        (process_message sum_hash sign integrity "c1" message 1000).0
        later)
      "c1"
      message
      21000).1
    ≡ some replay_detected
unfolding new_message_integrity process_message lookup
replay_refused_example =
    replay_refused sum_hash sign integrity "c1" message 1000 21000 later refl refl (tt, (refl, tt))

abbrev pool : PipelineWorkerPool (String × ℕ)
pool = new_pipeline_worker_pool 2 (pos 0) (pos 16)

abbrev of_task : String × ℕ → String
of_task t = t.0

abbrev calls : List (PoolCall (String × ℕ))
calls = submits ("c1", 1) ∷ submits ("c2", 2) ∷ works 7 ∷ submits ("c1", 3) ∷ works 7 ∷ []

pool_calls-order_example :
    waiting sum_hash of_task pool "c1"
      ++ of_connection sum_hash of_task "c1" (pool_calls sum_hash of_task pool calls).1
    ≡ of_connection sum_hash of_task "c1" (pool_calls sum_hash of_task pool calls).2
      ++ waiting sum_hash of_task (pool_calls sum_hash of_task pool calls).0 "c1"
pool_calls-order_example =
    pool_calls-order sum_hash of_task pool calls "c1"
      (new_pool-IsSharded sum_hash of_task 2 (pos 0) (pos 16) (omega arith))
