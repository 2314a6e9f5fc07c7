-- ===== src/Gateway/Pipeline/Guards.antt =====
-- The stages of MessagePipeline.Process (internal/gateway/pipeline.go): the guards that a client's message passes
-- before it is handed to a logic server, in the order of the code. Each function is one stage; it
-- ends the call, or goes on with `next`. `now` is the reading of the clock, in nanoseconds where
-- the component takes it so and in milliseconds where it takes those. The sampled latency and the
-- spans of the tracer are left out: they change nothing else.
use sgate.Prelude.{
  ℕ, suc, ◌/◌, String, Bool, true, false, not, ◌&&◌, List, [], ◌∷◌, Option, none, some,
  if◌then◌else◌, ◌==◌, string_eq,
}
use sgate.Prelude.Int.{ℤ, pos, ltb_ℤ, leb_ℤ, sub_ℕ}
use sgate.Prelude.Bytes.{Bytes}
use sgate.Prelude.Maps.{lookup, insert}
use sgate.Types.StreamData.{StreamData}
use sgate.Types.Filters.{FilterContext, FilterChain, run_phases, all_phases}
use sgate.Connection.MsgRate.{check_and_increment_msg_rate}
use sgate.Security.Whitelist.{is_in_blacklist, is_in_whitelist, whitelist_empty}
use sgate.Security.Waf.{inspect, should_block}
use sgate.Security.RateLimit.Limiter.{RateLimiter, allow_global}
use sgate.Security.RateLimit.Limiter.Table.{allow}
use sgate.Security.Breaker.{CircuitBreaker}
use sgate.Security.Breaker.{allow as breaker_allow}
use sgate.Security.Breaker.Registry.{CircuitBreakerManager, get_circuit_breaker}
use sgate.Gateway.Integrity.{process_message}
use sgate.Gateway.Pipeline.State.{
  Action, action_none, action_close, PipelineError, err_unbound, err_unauthed, err_rate_limit,
  err_integrity, PipelineResult, PipelineConn, Counters, Gateway, Surroundings,
}
use text.Mathlib.Text.{starts_with}

-- The command of a login to a logic server, which is always let through.
abbrev pub cmd_logic_login_req : ℤ
cmd_logic_login_req = pos 1100001

abbrev pub int_beq : ℤ → ℤ → Bool
int_beq a b = leb_ℤ a b && leb_ℤ b a

unfoldable pub contains : List ℤ → ℤ → Bool
contains [] cmd = false
contains (c ∷ cs) cmd = let rest = contains cs cmd in if int_beq c cmd then true else rest

abbrev pub is_none {ℓ} : {A : Type ℓ} → Option A → Bool
is_none none = true
is_none (some a) = false

abbrev pub or_empty : Option String → String
or_empty none = ""
or_empty (some s) = s

abbrev pub or_payload : Bytes → Bytes → Bytes
or_payload [] payload = payload
or_payload (b ∷ bs) payload = b ∷ bs

abbrev pub now_ms : ℕ → ℕ
now_ms now = now / 1000000

abbrev pub Outcome : Type 0 → Type 0 → Type 0
Outcome C S = Gateway C S × PipelineResult

module _ {S : Type 0} where
  abbrev pub no_filters : Option (FilterChain S) → Bool
  no_filters none = true
  no_filters (some chain) = elim chain.filters [ [] ↦ true | f ∷ fs ↦ false ]

module _ {C : Type 0} where
  abbrev pub is_authenticated : PipelineConn C → Bool
  is_authenticated conn = not (conn.user_uuid == "") && not (starts_with conn.user_uuid "temp_")

  unfoldable pub build_filter_context :
      Surroundings C → String → PipelineConn C → ℤ → Bytes → FilterContext
  build_filter_context env id conn cmd payload = record {
    connection_id = id;
    remote_ip = conn.remote_host;
    route = env.itoa cmd;
    cmd = cmd;
    data_bytes = payload;
    user_uuid = if is_authenticated conn then conn.user_uuid else "";
    metadata = [];
    abort = false;
    drop_reason = "";
    mirrored = false;
  }

  module _ (env : Surroundings C) where
    unfoldable pub is_pre_auth_command : ℤ → Bool
    is_pre_auth_command cmd =
        if int_beq cmd cmd_logic_login_req then true else contains env.pre_auth_commands cmd

    abbrev pub cached_connected : Option C → Bool
    cached_connected none = false
    cached_connected (some c) = env.is_connected c

    abbrev pub keep_exp : PipelineConn C → String → PipelineConn C
    keep_exp conn exp =
        if exp == ""
        then conn
        else (elim (env.atoi exp) [ none ↦ conn | some n ↦ record conn { jwt_exp = n } ])

    -- The identity of the token that the filters found stays with the connection.
    unfoldable pub keep_jwt : PipelineConn C → FilterContext → PipelineConn C
    keep_jwt conn c =
        let jti = or_empty (lookup "jwt.jti" c.metadata) in
        if jti == ""
        then conn
        else keep_exp (record conn { jwt_jti = jti }) (or_empty (lookup "jwt.exp" c.metadata))

module _ {C S : Type 0} where
  abbrev pub dropped : Gateway C S → Counters → Outcome C S
  dropped g counters = (
    record g { counters = counters },
    record { action = action_none; error = none; proto_msg = none },
  )

  abbrev pub refused : Gateway C S → Counters → Action → PipelineError → Outcome C S
  refused g counters action err = (
    record g { counters = counters },
    record { action = action; error = some err; proto_msg = none },
  )

  abbrev pub put_conn : Gateway C S → String → PipelineConn C → Gateway C S
  put_conn g id conn = record g { connections = insert id conn g.connections }

  module _ (env : Surroundings C) (now : ℕ) where
    unfoldable pub check_overload : Gateway C S → Outcome C S → Outcome C S
    check_overload g next =
        if g.overloaded
        then dropped (record g { overload_dropped = suc g.overload_dropped })
            (record g.counters { dropped_overload = suc g.counters.dropped_overload })
        else next

    abbrev pub auth_dropped : Gateway C S → Counters
    auth_dropped g = record g.counters { dropped_auth = suc g.counters.dropped_auth }

    -- A message that comes before the login is over is dropped; after the grace its connection is
    -- closed.
    abbrev pub too_early : Gateway C S → PipelineConn C → PipelineError → Outcome C S
    too_early g conn err =
        if ltb_ℤ (sub_ℕ (now_ms now) conn.created_at) (pos env.login_bind_grace)
        then dropped g (auth_dropped g)
        else refused g (auth_dropped g) action_close err

    unfoldable pub check_login : Gateway C S → PipelineConn C → ℤ → Outcome C S → Outcome C S
    check_login g conn cmd next =
        let unbound = conn.server_id == "" in
        if unbound && not (is_pre_auth_command env cmd)
        then too_early g conn err_unbound
        else if not unbound && (not (is_authenticated conn) && not (is_pre_auth_command env cmd))
        then too_early g conn err_unauthed
        else next

    unfoldable pub check_msg_rate :
        Gateway C S
        → String
        → PipelineConn C
        → (Gateway C S → PipelineConn C → Outcome C S)
        → Outcome C S
    check_msg_rate g id conn next =
        let (w, passes) =
          check_and_increment_msg_rate env.max_messages_per_conn conn.window (now_ms now) in
        let conn' = record conn { window = w } in
        let g' = put_conn g id conn' in
        if passes
        then next g' conn'
        else refused g'
            (record g.counters { dropped_rate_limit = suc g.counters.dropped_rate_limit })
            action_none err_rate_limit

    -- The client that the connection remembers, or else the one of its server.
    unfoldable pub find_client :
        Gateway C S
        → String
        → PipelineConn C
        → (Gateway C S → PipelineConn C → Option C → Outcome C S)
        → Outcome C S
    find_client g id conn next =
        if conn.server_id == ""
        then next g conn none
        else if cached_connected env conn.logic_client
        then next g conn conn.logic_client
        else (elim (env.get_logic_client conn.server_id) [
          | none ↦ dropped g (record g.counters {
            dropped_no_logic_not_connected = suc g.counters.dropped_no_logic_not_connected;
          })
          | some c ↦
              let conn' = record conn { logic_client = some c } in
              next (put_conn g id conn') conn' (some c)
        ])

    unfoldable pub security_disabled : Gateway C S → Bool
    security_disabled g =
        is_none g.whitelist_blacklist
        && (is_none g.rate_limiter
            && (is_none g.waf
                && (is_none g.circuit_breaker_mgr
                    && (not env.verify_inbound && no_filters g.filter_chain))))

    unfoldable pub check_lists : Gateway C S → String → Outcome C S → Outcome C S
    check_lists g remote_ip next = elim g.whitelist_blacklist [
      | none ↦ next
      | some wbl ↦
          let counted = record g.counters {
            dropped_blacklist = suc g.counters.dropped_blacklist;
          } in
          if is_in_blacklist wbl remote_ip
          then dropped g counted
          else if not (whitelist_empty wbl) && not (is_in_whitelist wbl remote_ip)
          then dropped g counted
          else next
    ]

    abbrev pub with_limiter : Gateway C S → RateLimiter → Gateway C S
    with_limiter g rl = record g { rate_limiter = some rl }

    -- All of the gateway, then the address, then the route; the first that is refused ends it.
    unfoldable pub check_rates :
        Gateway C S → String → String → (Gateway C S → Outcome C S) → Outcome C S
    check_rates g remote_ip route_key next = elim g.rate_limiter [
      | none ↦ next g
      | some rl ↦
          let counted = record g.counters {
            dropped_rate_limit = suc g.counters.dropped_rate_limit;
          } in
          let (rl1, all_pass) = allow_global rl now in
          let (rl2, ip_passes) = allow env.rate_hash rl1 "ip" remote_ip now in
          let (rl3, route_passes) = allow env.rate_hash rl2 "route" route_key now in
          if all_pass
          then (if ip_passes
              then (if route_passes
                  then next (with_limiter g rl3)
                  else dropped (with_limiter g rl3) counted)
              else dropped (with_limiter g rl2) counted)
          else dropped (with_limiter g rl1) counted
    ]

    unfoldable pub check_waf : Gateway C S → Bytes → (Gateway C S → Outcome C S) → Outcome C S
    check_waf g payload next = elim g.waf [
      | none ↦ next g
      | some w ↦
          let (w', safe) = inspect w payload in
          let g' = record g { waf = some w' } in
          let counted = record g.counters { dropped_waf = suc g.counters.dropped_waf } in
          if safe
          then next g'
          else if should_block w
          then (
            record g' { counters = counted },
            record { action = action_close; error = none; proto_msg = none },
          )
          else dropped g' counted
    ]

    unfoldable pub get_or_create_breaker :
        Gateway C S → String → Option (CircuitBreakerManager × CircuitBreaker)
    get_or_create_breaker g route = elim g.circuit_breaker_mgr [
      | none ↦ none
      | some mgr ↦ elim g.breaker_params [
        | none ↦ none
        | some p ↦
            some
              (get_circuit_breaker mgr route p.failure_threshold p.success_threshold p.timeout now)
      ]
    ]

    abbrev pub put_breaker :
        Gateway C S → CircuitBreakerManager → String → CircuitBreaker → Gateway C S
    put_breaker g mgr route cb = record g {
      circuit_breaker_mgr = some (record { breakers = insert route cb mgr.breakers });
    }

    unfoldable pub check_breaker : Gateway C S → String → (Gateway C S → Outcome C S) → Outcome C S
    check_breaker g route_key next = elim (get_or_create_breaker g route_key) [
      | none ↦ next g
      | some made ↦
          let (cb', passes) = breaker_allow made.1 now in
          let g' = put_breaker g made.0 route_key cb' in
          if passes
          then next g'
          else dropped g' (record g.counters { dropped_circuit = suc g.counters.dropped_circuit })
    ]

    unfoldable pub check_integrity :
        Gateway C S → String → StreamData → (Gateway C S → Outcome C S) → Outcome C S
    check_integrity g id message next =
        let (mi, err) =
          process_message env.fnv env.itoa g.message_integrity id message (now_ms now) in
        let g' = record g { message_integrity = mi } in
        if env.verify_inbound
        then (elim err [
          | none ↦ next g'
          | some e ↦
              refused g'
                (record g.counters { dropped_integrity = suc g.counters.dropped_integrity })
                action_none (err_integrity e)
        ])
        else next g

    -- applyForwardFilters, but for the mirroring, which calls out and changes nothing here. `next`
    -- has the message that the filters made, if there is a chain.
    unfoldable pub apply_forward_filters :
        Gateway C S
        → String
        → PipelineConn C
        → StreamData
        → (Gateway C S → Option StreamData → Outcome C S)
        → Outcome C S
    apply_forward_filters g id conn message next = elim g.filter_chain [
      | none ↦ next g none
      | some chain ↦
          let (s, c, passes) =
            run_phases chain all_phases g.filter_state
              (build_filter_context env id conn message.cmd message.data_bytes) in
          let g' = record g { filter_state = s } in
          if passes
          then next (put_conn g' id (keep_jwt env conn c)) (
              some (record {
                session_id = id;
                user_key = c.user_uuid;
                client_ip = "";
                cmd = message.cmd;
                seq_id = message.seq_id;
                data_bytes = or_payload c.data_bytes message.data_bytes;
              }))
          else dropped g'
              (record g.counters { dropped_filter_chain = suc g.counters.dropped_filter_chain })
    ]
