-- ===== src/Connection/Manager/Calls.antt =====
-- The calls that change a connection manager (internal/connection/manager.go), and sequences of them.
use sgate.Prelude.{◌≡◌, String, List, [], ◌∷◌, none, string_eq}
use sgate.Prelude.Int.{ℤ}
use sgate.Prelude.Maps.{lookup}
use sgate.Connection.Manager.{
  Manager, ServerUserKey, update_limits, add_connection, remove_connection,
  set_connection_server_id, set_connection_account_id, set_connection_login_key,
  update_connection_user_uuid,
}
use sgate.Connection.Manager.Groups.{
  add_user_to_group, remove_user_from_group, create_group, delete_group,
}

pub data Call : Type 0 where
  -- AddConnection, with its new identifier, the temporary user and the address. Whether CanAccept
  -- was asked before does not matter here: that is a call of its own, which changes nothing.
  opened : String → String → String → Call
  limits_updated : ℤ → ℤ → Call
  closed : String → Call
  server_id_set : String → String → Call
  account_id_set : String → String → Call
  login_key_set : String → String → Call
  user_uuid_updated : String → String → Call
  joined_group : String → ServerUserKey → Call
  left_group : String → ServerUserKey → Call
  group_created : String → String → Call
  group_deleted : String → Call

module _ (host : String → String) where
  unfoldable pub step : Manager → Call → Manager
  step cm (opened id user addr) = add_connection host cm id user addr
  step cm (limits_updated max_conn max_conn_per_ip) = update_limits cm max_conn max_conn_per_ip
  step cm (closed id) = remove_connection host cm id
  step cm (server_id_set id server) = set_connection_server_id cm id server
  step cm (account_id_set id account) = set_connection_account_id cm id account
  step cm (login_key_set id key) = set_connection_login_key cm id key
  step cm (user_uuid_updated id user) = update_connection_user_uuid cm id user
  step cm (joined_group group key) = add_user_to_group cm group key
  step cm (left_group group key) = remove_user_from_group cm group key
  step cm (group_created group name) = create_group cm group name
  step cm (group_deleted group) = delete_group cm group

  -- The identifier of a connection that opens is one that no connection has.
  unfoldable pub Fresh : Manager → Call → Type 0
  Fresh cm (opened id user addr) = lookup id cm.connections ≡ none
  Fresh cm (limits_updated max_conn max_conn_per_ip) = Unit
  Fresh cm (closed id) = Unit
  Fresh cm (server_id_set id server) = Unit
  Fresh cm (account_id_set id account) = Unit
  Fresh cm (login_key_set id key) = Unit
  Fresh cm (user_uuid_updated id user) = Unit
  Fresh cm (joined_group group key) = Unit
  Fresh cm (left_group group key) = Unit
  Fresh cm (group_created group name) = Unit
  Fresh cm (group_deleted group) = Unit

  unfoldable pub run : Manager → List Call → Manager
  run cm [] = cm
  run cm (call ∷ calls) = run (step cm call) calls

  unfoldable pub AllFresh : Manager → List Call → Type 0
  AllFresh cm [] = Unit
  AllFresh cm (call ∷ calls) = Fresh cm call × AllFresh (step cm call) calls
