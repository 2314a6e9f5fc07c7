-- ===== src/Gateway/Pipeline/Admission.antt =====
-- Which messages reach a logic server (internal/gateway/pipeline.go, MessagePipeline.Process).
use sgate.Prelude.{
  ℕ, ◌≡◌, ◌⊎◌, inl, inr, refl, ap, ◌∙◌, String, Bool, true, false, not, ◌&&◌, ◌∷◌, Option, none,
  some, ◌==◌, string_eq, arith, if_cases, option_cases, Bool-cases, ◌||◌,
}
use sgate.Prelude.Int.{ℤ, pos, ltb_ℤ, sub_ℕ}
use sgate.Prelude.Bytes.{Bytes}
use sgate.Prelude.Maps.{lookup}
use sgate.Types.StreamData.{StreamData, is_zero}
use sgate.Connection.MsgRate.{check_and_increment_msg_rate}
use sgate.Security.Whitelist.{WhitelistBlacklist, is_in_blacklist, is_in_whitelist, whitelist_empty}
use sgate.Gateway.Pipeline.State.{PipelineConn, Gateway, Surroundings}
use sgate.Gateway.Pipeline.Guards.{
  Outcome, now_ms, is_authenticated, is_pre_auth_command, check_login, check_msg_rate, check_lists,
  get_or_create_breaker,
}
use sgate.Gateway.Pipeline.{
  full_message, record_breaker, record_degradation, send_to, forward, secured,
}
use sgate.Gateway.Pipeline.Handed.{
  check_rates-next, check_waf-next, check_breaker-next, check_integrity-next, apply_filters-next,
}

-- What the lists say of an address.
abbrev pub lists_pass : Option WhitelistBlacklist → String → Bool
lists_pass none ip = true
lists_pass (some wbl) ip =
    not (is_in_blacklist wbl ip) && (whitelist_empty wbl || is_in_whitelist wbl ip)

module _ {C S : Type 0} where
  -- A message that a logic server took, and what the gateway was when it came.
  pub record IsHanded (env : Surroundings C) (g : Gateway C S) (message : StreamData) (id : String)
      (o : Outcome C S) : Type 0 where
    pub msg : StreamData
    pub conn : PipelineConn C
    pub handed : o.0.handed ≡ msg ∷ g.handed
    pub session : msg.session_id ≡ id
    pub no_error : o.1.error ≡ none
    pub not_overloaded : g.overloaded ≡ false
    pub has_cmd : is_zero message.cmd ≡ false
    pub found : lookup id g.connections ≡ some conn
    pub logged_in :
        (is_pre_auth_command env message.cmd ≡ true)
        ⊎ (((conn.server_id == "") ≡ false) × (is_authenticated conn ≡ true))
    pub listed : lists_pass g.whitelist_blacklist conn.remote_host ≡ true

module _ {C : Type 0} where
  full_message-session :
      (id : String) (conn : PipelineConn C) (message : StreamData) (made : Option StreamData)
      → (made ≡ none) ⊎ ((m : StreamData) × (made ≡ some m) × (m.session_id ≡ id))
      → (full_message id conn message made).session_id ≡ id
  unfolding full_message
  full_message-session id conn message made (inl e) = rw e refl
  full_message-session id conn message made (inr (m, e, s)) = rw e s

module _ {C S : Type 0} (env : Surroundings C) (now : ℕ) where
  record_breaker-handed :
      (g : Gateway C S) (route : String) (failed : Bool)
      → (record_breaker env now g route failed).handed ≡ g.handed
  unfolding record_breaker
  record_breaker-handed g route failed =
      option_cases (λ (h : Gateway C S). h.handed ≡ g.handed)
        (get_or_create_breaker env now g route) (λ e. refl) (λ made e. refl)

  record_degradation-handed :
      (g : Gateway C S) (route : String) (failed : Bool)
      → (record_degradation env now g route failed).handed ≡ g.handed
  unfolding record_degradation
  record_degradation-handed g route failed =
      option_cases (λ (h : Gateway C S). h.handed ≡ g.handed) g.degradation (λ e. refl)
        (λ m e. refl)

  recorded-handed :
      (g : Gateway C S) (route : String) (failed : Bool)
      → (record_degradation env now (record_breaker env now g route failed) route failed).handed
        ≡ g.handed
  recorded-handed g route failed =
      record_degradation-handed (record_breaker env now g route failed) route failed
      ∙ record_breaker-handed g route failed

  pub forward-handed :
      (P : Outcome C S → Type 0) (g : Gateway C S) (client : Option C) (route : String)
      (msg : StreamData)
      → ((o : Outcome C S) → o.0.handed ≡ g.handed → P o)
      → ((o : Outcome C S) → o.0.handed ≡ msg ∷ g.handed → o.1.error ≡ none → P o)
      → P (forward env now g client route msg)
  unfolding forward
  forward-handed P g client route msg fails takes =
      option_cases P (send_to env client msg) (λ e. takes _ (recorded-handed _ route false) refl)
        (λ err e. fails _ (recorded-handed _ route true))

  check_lists-next :
      (P : Outcome C S → Type 0) (g : Gateway C S) (ip : String) (next : Outcome C S)
      → ((o : Outcome C S) → o.0.handed ≡ g.handed → P o)
      → (lists_pass g.whitelist_blacklist ip ≡ true → P next)
      → P (check_lists env now g ip next)
  unfolding check_lists
  check_lists-next P g ip next ends goes =
      option_cases P g.whitelist_blacklist (λ e. goes (ap (λ o. lists_pass o ip) e))
        (λ wbl e.
          if_cases P (is_in_blacklist wbl ip) (λ b. ends _ refl)
            (λ b.
              if_cases P (not (whitelist_empty wbl) && not (is_in_whitelist wbl ip))
                (λ w. ends _ refl)
                (λ w. goes (ap (λ o. lists_pass o ip) e ∙ ground (arith, b, w)))))

  -- The secured path from the lists on.
  pub secured-handed :
      (P : Outcome C S → Type 0) (g : Gateway C S) (id : String) (conn : PipelineConn C)
      (client : Option C) (payload : Bytes) (message : StreamData)
      → ((o : Outcome C S) → o.0.handed ≡ g.handed → P o)
      → (lists_pass g.whitelist_blacklist conn.remote_host ≡ true
          → (o : Outcome C S) (msg : StreamData) → o.0.handed ≡ msg ∷ g.handed
          → msg.session_id ≡ id
          → o.1.error ≡ none
          → P o)
      → P (secured env now g id conn client payload message)
  unfolding secured
  secured-handed P g id conn client payload message ends takes =
      let route = env.itoa message.cmd in
      let ip = conn.remote_host in
      check_lists-next P g ip _ ends (λ l. check_rates-next env now P g ip route _ ends (λ g1 e1.
        check_waf-next env now P g1 payload _ (λ o e. ends o (e ∙ e1))
          (λ g2 e2.
            check_breaker-next env now P g2 route _ (λ o e. ends o (e ∙ (e2 ∙ e1)))
              (λ g3 e3.
                check_integrity-next env now P g3 id message _
                  (λ o e. ends o (e ∙ (e3 ∙ (e2 ∙ e1))))
                  (λ g4 e4.
                    apply_filters-next env now P g4 id conn message _
                      (λ o e. ends o (e ∙ (e4 ∙ (e3 ∙ (e2 ∙ e1)))))
                      (λ g5 made e5 m.
                        let same = e5 ∙ (e4 ∙ (e3 ∙ (e2 ∙ e1))) in
                        let msg = full_message id conn message made in
                        forward-handed P g5 client route msg (λ o e. ends o (e ∙ same))
                          (λ o e n.
                            takes l o msg (e ∙ ap (λ h. msg ∷ h) same)
                              (full_message-session id conn message made m) n)))))))

  -- What the stages before the security do with what they end.
  pub check_login-next :
      (P : Outcome C S → Type 0) (g : Gateway C S) (conn : PipelineConn C) (cmd : ℤ)
      (next : Outcome C S)
      → ((o : Outcome C S) → o.0.handed ≡ g.handed → P o)
      → ((is_pre_auth_command env cmd ≡ true)
            ⊎ (((conn.server_id == "") ≡ false) × (is_authenticated conn ≡ true))
          → P next)
      → P (check_login env now g conn cmd next)
  unfolding check_login
  check_login-next P g conn cmd next ends goes =
      let early = ltb_ℤ (sub_ℕ (now_ms now) conn.created_at) (pos env.login_bind_grace) in
      if_cases P ((conn.server_id == "") && not (is_pre_auth_command env cmd))
        (λ u. if_cases P early (λ e. ends _ refl) (λ e. ends _ refl))
        (λ u.
          if_cases P
            (not (conn.server_id == "")
              && (not (is_authenticated conn) && not (is_pre_auth_command env cmd)))
            (λ a. if_cases P early (λ e. ends _ refl) (λ e. ends _ refl))
            (λ a. goes (elim (Bool-cases (is_pre_auth_command env cmd)) [
              | inl p ↦ inl p
              | inr p ↦ inr (ground (arith, u, p), ground (arith, u, a, p))
            ])))

  pub check_msg_rate-next :
      (P : Outcome C S → Type 0) (g : Gateway C S) (id : String) (conn : PipelineConn C)
      (next : Gateway C S → PipelineConn C → Outcome C S)
      → ((o : Outcome C S) → o.0.handed ≡ g.handed → P o)
      → ((g' : Gateway C S) (conn' : PipelineConn C)
          → g'.handed ≡ g.handed
          → g'.whitelist_blacklist ≡ g.whitelist_blacklist
          → conn'.remote_host ≡ conn.remote_host
          → P (next g' conn'))
      → P (check_msg_rate env now g id conn next)
  unfolding check_msg_rate
  check_msg_rate-next P g id conn next ends goes =
      if_cases P (check_and_increment_msg_rate env.max_messages_per_conn conn.window (now_ms now)).1
        (λ a. goes _ _ refl refl refl) (λ a. ends _ refl)
