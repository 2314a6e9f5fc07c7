-- ===== src/Gateway/Pipeline/Admitted.antt =====
-- The guards that a message has passed when it reaches a logic server
-- (internal/gateway/pipeline.go, MessagePipeline.Process).
use sgate.Prelude.{
  ℕ, ◌≡◌, ◌⊎◌, inl, inr, refl, sym, ap, ◌∙◌, String, Bool, true, false, not, ◌&&◌, ◌∷◌, Option,
  none, ◌==◌, string_eq, arith, if_cases, option_cases, Option-cases,
}
use sgate.Prelude.Bytes.{Bytes}
use sgate.Prelude.Maps.{lookup}
use sgate.Types.StreamData.{StreamData, is_zero}
use sgate.Gateway.Pipeline.State.{PipelineConn, Gateway, Surroundings}
use sgate.Gateway.Pipeline.Guards.{
  Outcome, is_none, is_authenticated, is_pre_auth_command, check_overload, security_disabled,
}
use sgate.Gateway.Pipeline.{fast_message, dispatch, process_for, process}
use sgate.Gateway.Pipeline.Handed.{find_client-next}
use sgate.Gateway.Pipeline.Admission.{
  lists_pass, IsHanded, secured-handed, forward-handed, check_login-next, check_msg_rate-next,
}

module _ {C S : Type 0} (env : Surroundings C) (now : ℕ) where
  -- Without security there are no lists.
  disabled-lists :
      (g : Gateway C S) (ip : String) (rest : Bool)
      → (security_disabled env now g && rest) ≡ true
      → lists_pass g.whitelist_blacklist ip ≡ true
  unfolding security_disabled
  disabled-lists g ip rest h = elim (Option-cases g.whitelist_blacklist) [
    | inl e ↦ ap (λ o. lists_pass o ip) e
    | inr (w, e) ↦ absurd (ground (arith, h, ap is_none e))
  ]

  dispatch-handed :
      (P : Outcome C S → Type 0) (g : Gateway C S) (id : String) (conn : PipelineConn C)
      (client : Option C) (payload : Bytes) (message : StreamData)
      → ((o : Outcome C S) → o.0.handed ≡ g.handed → P o)
      → (lists_pass g.whitelist_blacklist conn.remote_host ≡ true
          → (o : Outcome C S) (msg : StreamData) → o.0.handed ≡ msg ∷ g.handed
          → msg.session_id ≡ id
          → o.1.error ≡ none
          → P o)
      → P (dispatch env now g id conn client payload message)
  unfolding dispatch fast_message
  dispatch-handed P g id conn client payload message ends takes =
      if_cases P (security_disabled env now g && (not g.tracing && is_none g.degradation))
        (λ d.
          forward-handed env now P g client "" (fast_message id conn message) ends
            (λ o e n. takes (disabled-lists g conn.remote_host _ d) o _ e refl n))
        (λ d. secured-handed env now P g id conn client payload message ends takes)

  process_for-handed :
      (P : Outcome C S → Type 0) (g : Gateway C S) (id : String) (conn : PipelineConn C)
      (payload : Bytes) (message : StreamData)
      → ((o : Outcome C S) → o.0.handed ≡ g.handed → P o)
      → ((is_pre_auth_command env message.cmd ≡ true)
            ⊎ (((conn.server_id == "") ≡ false) × (is_authenticated conn ≡ true))
          → lists_pass g.whitelist_blacklist conn.remote_host ≡ true
          → (o : Outcome C S) (msg : StreamData) → o.0.handed ≡ msg ∷ g.handed
          → msg.session_id ≡ id
          → o.1.error ≡ none
          → P o)
      → P (process_for env now g id conn payload message)
  unfolding process_for
  process_for-handed P g id conn payload message ends takes =
      check_login-next env now P g conn message.cmd _ ends (λ login.
        check_msg_rate-next env now P g id conn _ ends (λ g1 conn1 e1 w1 h1.
          find_client-next env now P g1 id conn1 _ (λ o e. ends o (e ∙ e1))
            (λ g2 conn2 client e2 w2 h2.
              dispatch-handed P g2 id conn2 client payload message (λ o e. ends o (e ∙ (e2 ∙ e1)))
                (λ l o msg e s n.
                  takes login
                    (ap (λ t. lists_pass t conn.remote_host) (sym (w2 ∙ w1))
                      ∙ (ap (lists_pass g2.whitelist_blacklist) (sym (h2 ∙ h1)) ∙ l))
                    o msg (e ∙ ap (λ t. msg ∷ t) (e2 ∙ e1)) s n))))

  abbrev pub Ended : Gateway C S → StreamData → String → Outcome C S → Type 0
  Ended g message id o = (o.0.handed ≡ g.handed) ⊎ IsHanded env g message id o

  -- A call of the pipeline hands nothing to a logic server, or exactly one message, and then with no
  -- error: the gateway is not overloaded, the message has a command and its session is that of a
  -- connection that has logged in, or the command needs no login; and the address of the connection
  -- is not in the black list, and in the white list if that is not empty.
  pub process-Ended :
      (g : Gateway C S) (payload : Bytes) (message : StreamData) (id : String)
      → Ended g message id (process env now g payload message id)
  unfolding process check_overload
  process-Ended g payload message id =
      if_cases (Ended g message id) g.overloaded (λ o. inl refl)
        (λ o.
          if_cases (Ended g message id) (is_zero message.cmd) (λ z. inl refl)
            (λ z.
              option_cases (Ended g message id) (lookup id g.connections) (λ f. inl refl)
                (λ conn f.
                  process_for-handed (Ended g message id) g id conn payload message (λ r e. inl e)
                    (λ login l r msg e s n. inr (record {
                      msg = msg;
                      conn = conn;
                      handed = e;
                      session = s;
                      no_error = n;
                      not_overloaded = o;
                      has_cmd = z;
                      found = f;
                      logged_in = login;
                      listed = l;
                    })))))
