-- ===== src/Connection/Manager/Limits.antt =====
-- The limit on connections, over opens that ask for it and opens that do not
-- (internal/connection/manager.go).
use sgate.Prelude.{
  ℕ, zero, suc, ◌+◌, ◌-◌, ◌≤◌, ◌<◌, ◌≡◌, refl, ◌∙◌, String, true, false, List, [], ◌∷◌, none, some,
  All, arith, ◌==◌, string_eq, if_cases, option_cases,
}
use sgate.Prelude.Int.{ℤ, pos, wrap32_small}
use sgate.Prelude.Maps.{lookup}
use sgate.Connection.Manager.{
  Manager, Conn, ServerUserKey, new_connection_manager, can_accept, add_connection,
  remove_connection, set_connection_server_id, set_connection_account_id, set_connection_login_key,
  update_connection_user_uuid,
}
use sgate.Connection.Manager.Groups.{
  add_user_to_group, remove_user_from_group, create_group, delete_group,
}
use sgate.Connection.Manager.Calls.{
  Call, opened, limits_updated, closed, server_id_set, account_id_set, login_key_set,
  user_uuid_updated, joined_group, left_group, group_created, group_deleted,
}
use sgate.Connection.Manager.Calls.{step as step_call}
use sgate.Connection.Manager.Opens.{
  OpenEvent, asked, added, called, Opens, keeps_limits, no_opens, step_open, run_opens,
}

module _ (host : String → String) where
  -- The count is no greater, and the limit is the same.
  abbrev IsNoMore : Manager → Manager → Type 0
  IsNoMore cm cm' = (cm'.count ≤ cm.count) × (cm'.max_connections ≡ cm.max_connections)

  remove-IsNoMore : (cm : Manager) (id : String) → IsNoMore cm (remove_connection host cm id)
  unfolding remove_connection
  remove-IsNoMore cm id =
      option_cases (λ (m : Manager). IsNoMore cm m) (lookup id cm.connections)
        (λ (e : lookup id cm.connections ≡ none). (omega arith, refl))
        (λ (conn : Conn) (e : lookup id cm.connections ≡ some conn). (omega arith, refl))

  server-IsNoMore :
      (cm : Manager) (id value : String) → IsNoMore cm (set_connection_server_id cm id value)
  unfolding set_connection_server_id
  server-IsNoMore cm id value =
      option_cases (λ (m : Manager). IsNoMore cm m) (lookup id cm.connections)
        (λ (e : lookup id cm.connections ≡ none). (omega arith, refl))
        (λ (conn : Conn) (e : lookup id cm.connections ≡ some conn). (omega arith, refl))

  account-IsNoMore :
      (cm : Manager) (id value : String) → IsNoMore cm (set_connection_account_id cm id value)
  unfolding set_connection_account_id
  account-IsNoMore cm id value =
      option_cases (λ (m : Manager). IsNoMore cm m) (lookup id cm.connections)
        (λ (e : lookup id cm.connections ≡ none). (omega arith, refl))
        (λ (conn : Conn) (e : lookup id cm.connections ≡ some conn).
          if_cases (λ (m : Manager). IsNoMore cm m) (value == "")
            (λ (f : (value == "") ≡ true). (omega arith, refl))
            (λ (f : (value == "") ≡ false). (omega arith, refl)))

  login_key-IsNoMore :
      (cm : Manager) (id value : String) → IsNoMore cm (set_connection_login_key cm id value)
  unfolding set_connection_login_key
  login_key-IsNoMore cm id value =
      option_cases (λ (m : Manager). IsNoMore cm m) (lookup id cm.connections)
        (λ (e : lookup id cm.connections ≡ none). (omega arith, refl))
        (λ (conn : Conn) (e : lookup id cm.connections ≡ some conn).
          if_cases (λ (m : Manager). IsNoMore cm m) (value == "")
            (λ (f : (value == "") ≡ true). (omega arith, refl))
            (λ (f : (value == "") ≡ false). (omega arith, refl)))

  user-IsNoMore :
      (cm : Manager) (id value : String) → IsNoMore cm (update_connection_user_uuid cm id value)
  unfolding update_connection_user_uuid
  user-IsNoMore cm id value =
      option_cases (λ (m : Manager). IsNoMore cm m) (lookup id cm.connections)
        (λ (e : lookup id cm.connections ≡ none). (omega arith, refl))
        (λ (conn : Conn) (e : lookup id cm.connections ≡ some conn). (omega arith, refl))

  left_group-IsNoMore :
      (cm : Manager) (group : String) (key : ServerUserKey)
      → IsNoMore cm (remove_user_from_group cm group key)
  unfolding remove_user_from_group
  left_group-IsNoMore cm group key = ground arith

  created_group-IsNoMore :
      (cm : Manager) (group name : String) → IsNoMore cm (create_group cm group name)
  unfolding create_group
  created_group-IsNoMore cm group name = ground arith

  -- The limit is `limit`, and what is held and in flight is above it at most by the opens that were
  -- let through together, but one, and by those that did not ask.
  abbrev IsWithin : ℕ → Opens → Type 0
  IsWithin limit s =
      (s.manager.max_connections ≡ pos limit)
      × (s.manager.count + s.in_flight ≤ limit + (s.peak - 1) + s.unasked)

  kept-IsWithin :
      (limit : ℕ) (s : Opens) (cm : Manager)
      → IsNoMore s.manager cm
      → IsWithin limit s
      → IsWithin limit (record s { manager = cm; unasked = s.unasked + 0 })
  kept-IsWithin limit s cm k h = (k.1 ∙ h.0, omega (arith, k.0, h.1))

  called-IsWithin :
      (limit : ℕ) (s : Opens) (call : Call)
      → keeps_limits (called call) ≡ true
      → IsWithin limit s
      → IsWithin limit (step_open host s (called call))
  unfolding step_open step_call
  called-IsWithin limit s (opened id user addr) k h =
      unfold add_connection in (h.0, omega (arith, h.1))
  called-IsWithin limit s (limits_updated m p) k h = ground (arith, k)
  called-IsWithin limit s (closed id) k h =
      kept-IsWithin limit s (remove_connection host s.manager id) (remove-IsNoMore s.manager id) h
  called-IsWithin limit s (server_id_set id v) k h =
      kept-IsWithin limit s (set_connection_server_id s.manager id v)
        (server-IsNoMore s.manager id v) h
  called-IsWithin limit s (account_id_set id v) k h =
      kept-IsWithin limit s (set_connection_account_id s.manager id v)
        (account-IsNoMore s.manager id v) h
  called-IsWithin limit s (login_key_set id v) k h =
      kept-IsWithin limit s (set_connection_login_key s.manager id v)
        (login_key-IsNoMore s.manager id v) h
  called-IsWithin limit s (user_uuid_updated id v) k h =
      kept-IsWithin limit s (update_connection_user_uuid s.manager id v)
        (user-IsNoMore s.manager id v) h
  called-IsWithin limit s (joined_group group key) k h =
      unfold add_user_to_group in (h.0, omega (arith, h.1))
  called-IsWithin limit s (left_group group key) k h =
      kept-IsWithin limit s (remove_user_from_group s.manager group key)
        (left_group-IsNoMore s.manager group key) h
  called-IsWithin limit s (group_created group name) k h =
      kept-IsWithin limit s (create_group s.manager group name)
        (created_group-IsNoMore s.manager group name) h
  called-IsWithin limit s (group_deleted group) k h =
      unfold delete_group in (h.0, omega (arith, h.1))

  -- An open is let through only below the limit.
  asked-below :
      (limit : ℕ) (cm : Manager) (ip : String)
      → 0 < limit
      → cm.max_connections ≡ pos limit
      → can_accept cm ip ≡ true
      → cm.count < limit
  unfolding can_accept
  asked-below limit cm ip p h ok = ground (arith, h, ok)

  added-IsWithin :
      (limit : ℕ) (s : Opens) (n : ℕ) (id user addr : String)
      → s.in_flight ≡ n
      → IsWithin limit s
      → IsWithin limit (step_open host s (added id user addr))
  unfolding step_open add_connection
  added-IsWithin limit s zero id user addr e h = rw (e, step_open) h
  added-IsWithin limit s (suc n) id user addr e h = rw (e, step_open) (h.0, omega (arith, h.1, e))

  step-IsWithin :
      (limit : ℕ) (s : Opens) (event : OpenEvent)
      → 0 < limit
      → keeps_limits event ≡ true
      → IsWithin limit s
      → IsWithin limit (step_open host s event)
  unfolding step_open
  step-IsWithin limit s (asked ip) p k h =
      if_cases (λ (r : Opens). IsWithin limit r) (can_accept s.manager ip)
        (λ (ok : can_accept s.manager ip ≡ true).
          (h.0, ground (arith, h.1, asked-below limit s.manager ip p h.0 ok)))
        (λ (full : can_accept s.manager ip ≡ false). h)
  step-IsWithin limit s (added id user addr) p k h =
      added-IsWithin limit s s.in_flight id user addr refl h
  step-IsWithin limit s (called call) p k h = called-IsWithin limit s call k h

  run-IsWithin :
      (limit : ℕ) (s : Opens) (events : List OpenEvent)
      → 0 < limit
      → All (λ (event : OpenEvent). keeps_limits event ≡ true) events
      → IsWithin limit s
      → IsWithin limit (run_opens host s events)
  unfolding run_opens
  run-IsWithin limit s [] p k h = h
  run-IsWithin limit s (event ∷ events) p k h =
      run-IsWithin limit (step_open host s event) events p k.1 (step-IsWithin limit s event p k.0 h)

-- From a new manager with a positive limit that fits an int32, over any events that leave the
-- limits, the connections held and the opens in flight together are above the limit by no more than
-- one less than the most opens that were in flight at a time, and the connections that were added
-- without asking. Where opens come one at a time and all ask, the limit is therefore kept.
pub run_opens-limit :
    (host : String → String) (limit : ℕ) (max_conn_per_ip : ℤ) (events : List OpenEvent)
    → 0 < limit
    → limit < 2147483648
    → All (λ (event : OpenEvent). keeps_limits event ≡ true) events
    → let s =
        run_opens host (no_opens (new_connection_manager (pos limit) max_conn_per_ip)) events in
      s.manager.count + s.in_flight ≤ limit + (s.peak - 1) + s.unasked
unfolding new_connection_manager
run_opens-limit host limit max_conn_per_ip events p small k =
    (run-IsWithin host limit (no_opens (new_connection_manager (pos limit) max_conn_per_ip)) events
      p k (wrap32_small limit small, omega arith)).1
