-- ===== src/Gateway/Pipeline/State.antt =====
-- What the message pipeline reads and changes (internal/gateway/pipeline.go, MessagePipeline and
-- PipelineResult): the gateway's components that it calls, its counters and the connection.
-- A logic client `C` is known by the two calls of LogicClientProvider, and the filters keep a state
-- `S`. What cannot be set is none, as a nil pointer is.
use Prim.Native.String.{String}
use sgate.Prelude.{ℕ, Bool, List, Option, string_eq}
use sgate.Prelude.Int.{ℤ}
use sgate.Prelude.Maps.{Map}
use sgate.Types.StreamData.{StreamData}
use sgate.Types.Filters.{FilterChain}
use sgate.Backend.Queue.{LogicError}
use sgate.Connection.MsgRate.{MsgWindow}
use sgate.Security.Whitelist.{WhitelistBlacklist}
use sgate.Security.Waf.{Waf}
use sgate.Security.RateLimit.Limiter.{RateLimiter}
use sgate.Security.Breaker.Registry.{CircuitBreakerManager}
use sgate.Traffic.Degradation.{DegradationManager}
use sgate.Gateway.Integrity.{MessageIntegrity, IntegrityError}

pub data Action : Type 0 where
  action_none action_close : Action

pub data PipelineError : Type 0 where
  err_missing_cmd err_no_conn err_unbound err_unauthed err_rate_limit : PipelineError
  err_integrity : IntegrityError → PipelineError
  err_forward : LogicError → PipelineError

pub record PipelineResult : Type 0 where
  pub action : Action
  pub error : Option PipelineError
  pub proto_msg : Option StreamData

-- The fields of a connection that the pipeline uses.
pub record PipelineConn (C : Type 0) : Type 0 where
  pub server_id : String
  pub user_uuid : String
  pub remote_host : String
  pub created_at : ℕ
  pub window : MsgWindow
  pub logic_client : Option C
  pub jwt_jti : String
  pub jwt_exp : ℤ

pub record Counters : Type 0 where
  pub dropped_overload : ℕ
  pub dropped_auth : ℕ
  pub dropped_rate_limit : ℕ
  pub dropped_no_logic_not_connected : ℕ
  pub dropped_blacklist : ℕ
  pub dropped_waf : ℕ
  pub dropped_circuit : ℕ
  pub dropped_integrity : ℕ
  pub dropped_filter_chain : ℕ
  pub failed : ℕ
  pub forwarded : ℕ
  pub processed : ℕ

pub record BreakerParams : Type 0 where
  pub failure_threshold : ℤ
  pub success_threshold : ℤ
  pub timeout : ℤ

pub record Gateway (C S : Type 0) : Type 0 where
  pub overloaded : Bool
  pub overload_dropped : ℕ
  pub connections : Map String (PipelineConn C)
  pub whitelist_blacklist : Option WhitelistBlacklist
  pub rate_limiter : Option RateLimiter
  pub waf : Option Waf
  pub circuit_breaker_mgr : Option CircuitBreakerManager
  pub breaker_params : Option BreakerParams
  pub message_integrity : MessageIntegrity
  pub filter_chain : Option (FilterChain S)
  pub filter_state : S
  pub degradation : Option DegradationManager
  pub tracing : Bool
  pub counters : Counters
  -- the messages that a logic client took, the newest first
  pub handed : List StreamData

-- The settings that the pipeline reads, and what stands outside: the hash functions, the conversions
-- of numbers, the float64 comparison of the degradation, and the clients of the logic servers.
pub record Surroundings (C : Type 0) : Type 0 where
  pub pre_auth_commands : List ℤ
  pub max_messages_per_conn : ℕ
  pub verify_inbound : Bool
  pub login_bind_grace : ℕ
  pub rate_hash : String → ℕ
  pub fnv : String → ℕ
  pub itoa : ℤ → String
  pub atoi : String → Option ℤ
  pub reached : ℕ → ℕ → Bool
  pub get_logic_client : String → Option C
  pub is_connected : C → Bool
  pub send_message : C → StreamData → Option LogicError
