-- ===== src/Gateway/Pipeline/Handed.antt =====
-- What each stage of the pipeline has handed over, whether it ends the call or goes on
-- (internal/gateway/pipeline.go, MessagePipeline.Process).
use sgate.Prelude.{
  ℕ, ◌≡◌, ◌⊎◌, inl, inr, refl, String, Option, none, some, ◌==◌, string_eq, if_cases, option_cases,
}
use sgate.Prelude.Bytes.{Bytes}
use sgate.Types.StreamData.{StreamData}
use sgate.Types.Filters.{run_phases, all_phases}
use sgate.Security.Waf.{inspect, should_block}
use sgate.Security.RateLimit.Limiter.{allow_global}
use sgate.Security.RateLimit.Limiter.Table.{allow}
use sgate.Security.Breaker.{allow as breaker_allow}
use sgate.Gateway.Integrity.{process_message}
use sgate.Gateway.Pipeline.State.{PipelineConn, Gateway, Surroundings}
use sgate.Gateway.Pipeline.Guards.{
  Outcome, now_ms, find_client, cached_connected, check_rates, check_waf, get_or_create_breaker,
  check_breaker, check_integrity, apply_forward_filters, build_filter_context,
}

module _ {C S : Type 0} (env : Surroundings C) (now : ℕ) (P : Outcome C S → Type 0) where
  pub check_rates-next :
      (g : Gateway C S) (ip route : String) (next : Gateway C S → Outcome C S)
      → ((o : Outcome C S) → o.0.handed ≡ g.handed → P o)
      → ((g' : Gateway C S) → g'.handed ≡ g.handed → P (next g'))
      → P (check_rates env now g ip route next)
  unfolding check_rates
  check_rates-next g ip route next ends goes =
      option_cases P g.rate_limiter (λ e. goes g refl)
        (λ rl e.
          let rl1 = (allow_global rl now).0 in
          let by_ip = allow env.rate_hash rl1 "ip" ip now in
          let by_route = allow env.rate_hash by_ip.0 "route" route now in
          if_cases P (allow_global rl now).1
            (λ a.
              if_cases P by_ip.1 (λ b. if_cases P by_route.1 (λ c. goes _ refl) (λ c. ends _ refl))
                (λ b. ends _ refl))
            (λ a. ends _ refl))

  pub check_waf-next :
      (g : Gateway C S) (payload : Bytes) (next : Gateway C S → Outcome C S)
      → ((o : Outcome C S) → o.0.handed ≡ g.handed → P o)
      → ((g' : Gateway C S) → g'.handed ≡ g.handed → P (next g'))
      → P (check_waf env now g payload next)
  unfolding check_waf
  check_waf-next g payload next ends goes =
      option_cases P g.waf (λ e. goes g refl)
        (λ w e.
          if_cases P (inspect w payload).1 (λ a. goes _ refl)
            (λ a. if_cases P (should_block w) (λ b. ends _ refl) (λ b. ends _ refl)))

  pub check_breaker-next :
      (g : Gateway C S) (route : String) (next : Gateway C S → Outcome C S)
      → ((o : Outcome C S) → o.0.handed ≡ g.handed → P o)
      → ((g' : Gateway C S) → g'.handed ≡ g.handed → P (next g'))
      → P (check_breaker env now g route next)
  unfolding check_breaker
  check_breaker-next g route next ends goes =
      option_cases P (get_or_create_breaker env now g route) (λ e. goes g refl)
        (λ made e. if_cases P (breaker_allow made.1 now).1 (λ a. goes _ refl) (λ a. ends _ refl))

  pub check_integrity-next :
      (g : Gateway C S) (id : String) (message : StreamData) (next : Gateway C S → Outcome C S)
      → ((o : Outcome C S) → o.0.handed ≡ g.handed → P o)
      → ((g' : Gateway C S) → g'.handed ≡ g.handed → P (next g'))
      → P (check_integrity env now g id message next)
  unfolding check_integrity
  check_integrity-next g id message next ends goes =
      if_cases P env.verify_inbound
        (λ v.
          option_cases P
            (process_message env.fnv env.itoa g.message_integrity id message (now_ms now)).1
            (λ e. goes _ refl) (λ e f. ends _ refl))
        (λ v. goes g refl)

  pub apply_filters-next :
      (g : Gateway C S) (id : String) (conn : PipelineConn C) (message : StreamData)
      (next : Gateway C S → Option StreamData → Outcome C S)
      → ((o : Outcome C S) → o.0.handed ≡ g.handed → P o)
      → ((g' : Gateway C S) (made : Option StreamData)
          → g'.handed ≡ g.handed
          → (made ≡ none) ⊎ ((m : StreamData) × (made ≡ some m) × (m.session_id ≡ id))
          → P (next g' made))
      → P (apply_forward_filters env now g id conn message next)
  unfolding apply_forward_filters
  apply_filters-next g id conn message next ends goes =
      option_cases P g.filter_chain (λ e. goes g none refl (inl refl))
        (λ chain e.
          let run =
            run_phases chain all_phases g.filter_state
              (build_filter_context env id conn message.cmd message.data_bytes) in
          if_cases P run.2 (λ a. goes _ _ refl (inr (_, refl, refl))) (λ a. ends _ refl))

  pub find_client-next :
      (g : Gateway C S) (id : String) (conn : PipelineConn C)
      (next : Gateway C S → PipelineConn C → Option C → Outcome C S)
      → ((o : Outcome C S) → o.0.handed ≡ g.handed → P o)
      → ((g' : Gateway C S) (conn' : PipelineConn C) (client : Option C)
          → g'.handed ≡ g.handed
          → g'.whitelist_blacklist ≡ g.whitelist_blacklist
          → conn'.remote_host ≡ conn.remote_host
          → P (next g' conn' client))
      → P (find_client env now g id conn next)
  unfolding find_client
  find_client-next g id conn next ends goes =
      if_cases P (conn.server_id == "") (λ u. goes g conn none refl refl refl)
        (λ u.
          if_cases P (cached_connected env conn.logic_client)
            (λ c. goes g conn conn.logic_client refl refl refl)
            (λ c.
              option_cases P (env.get_logic_client conn.server_id) (λ e. ends _ refl)
                (λ client e. goes _ _ (some client) refl refl refl)))
