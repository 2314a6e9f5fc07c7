-- ===== src/Gateway/Login/Displaced.antt =====
-- internal/gateway/login.go: the connection that a user had before a new login.
use sgate.Prelude.{
  ◌≡◌, refl, ap, String, Bool, true, false, not, ◌||◌, List, [], ◌∷◌, ◌++◌, Option, none, some,
  if◌then◌else◌, ◌==◌, string_eq, arith, if_cases, Option-cases, inl, inr,
}
use sgate.Prelude.Maps.{lookup, lookup-insert}
use sgate.Connection.Manager.{
  Manager, Conn, get_connection, get_user_connection, set_connection_server_id,
}
use sgate.Gateway.Login.{
  LoginGate, LoginServices, close_old_login, close_held, close_other, notify_logic_offline,
}

-- The user's other connection, where the manager holds it.
abbrev pub if_held : String → Option Conn → List String
if_held old none = []
if_held old (some conn) = old ∷ []

abbrev pub other_login : Manager → String → Option String → List String
other_login cm id none = []
other_login cm id (some old) = if old == id then [] else if_held old (get_connection cm old)

unfoldable pub displaced : Manager → String → String → List String
displaced cm id user = other_login cm id (get_user_connection cm user)

module _ (services : LoginServices) where
  -- Only connections were closed: the manager, the acks and the messages are as before.
  abbrev pub IsClosedOnly : LoginGate → List String → LoginGate → Type 0
  IsClosedOnly g closed g' =
      (g'.manager ≡ g.manager)
      × ((g'.acks ≡ g.acks) × ((g'.forwarded ≡ g.forwarded) × (g'.closings ≡ closed ++ g.closings)))

  notify-IsClosedOnly :
      (g : LoginGate) (old : String) (conn : Conn)
      → IsClosedOnly g [] (notify_logic_offline services g old conn)
  unfolding notify_logic_offline
  notify-IsClosedOnly g old conn =
      let away = conn.server_id == "" || not (services.has_logic_client conn.server_id) in
      if_cases (λ (r : LoginGate). IsClosedOnly g [] r) away
        (λ (e : away ≡ true). (refl, (refl, (refl, refl))))
        (λ (e : away ≡ false). (refl, (refl, (refl, refl))))

  close_held-IsClosedOnly :
      (g : LoginGate) (old : String) (conn : Option Conn)
      → IsClosedOnly g (if_held old conn) (close_held services g old conn)
  unfolding close_held
  close_held-IsClosedOnly g old none = (refl, (refl, (refl, refl)))
  close_held-IsClosedOnly g old (some conn) =
      let told = notify-IsClosedOnly g old conn in
      (told.0, (told.1.0, (told.1.1.0, ap (λ (cs : List String). old ∷ cs) told.1.1.1)))

  chosen-IsClosedOnly :
      (g : LoginGate) (old : String) (conn : Option Conn) (same : Bool)
      → IsClosedOnly g
          (if same then [] else if_held old conn)
          (if same then g else close_held services g old conn)
  chosen-IsClosedOnly g old conn true = (refl, (refl, (refl, refl)))
  chosen-IsClosedOnly g old conn false = close_held-IsClosedOnly g old conn

  close_other-IsClosedOnly :
      (g : LoginGate) (id : String) (entry : Option String)
      → IsClosedOnly g (other_login g.manager id entry) (close_other services g id entry)
  unfolding close_other
  close_other-IsClosedOnly g id none = (refl, (refl, (refl, refl)))
  close_other-IsClosedOnly g id (some old) =
      chosen-IsClosedOnly g old (get_connection g.manager old) (old == id)

  pub close_old-IsClosedOnly :
      (g : LoginGate) (id user : String)
      → IsClosedOnly g (displaced g.manager id user) (close_old_login services g id user)
  unfolding close_old_login displaced
  close_old-IsClosedOnly g id user =
      close_other-IsClosedOnly g id (get_user_connection g.manager user)

  -- Setting the server of a connection changes nothing of whose other login it displaces.
  pub displaced-set_server :
      (cm : Manager) (id server user : String) (conn : Conn)
      → lookup id cm.connections ≡ some conn
      → displaced (set_connection_server_id cm id server) id user ≡ displaced cm id user
  unfolding displaced get_user_connection get_connection set_connection_server_id
  displaced-set_server cm id server user conn here =
      elim (Option-cases (lookup user cm.user_connections)) [
        | inl unknown ↦ ground (arith, here, unknown)
        | inr (old, known) ↦ ground (
          arith,
          here,
          known,
          string_eq.beq_iff old id,
          string_eq.beq_iff id old,
          lookup-insert id old (record conn { server_id = server }) cm.connections,
        )
      ]
