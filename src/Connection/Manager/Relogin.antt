-- ===== src/Connection/Manager/Relogin.antt =====
-- Removing a connection: what stays and what goes of its user (internal/connection/manager.go).
use sgate.Prelude.{
  ◌≡◌, refl, String, Bool, true, false, [], ◌∷◌, Option, none, some, string_eq, arith, Option-cases,
  inl, inr, ◌≢◌,
}
use sgate.Prelude.Maps.{Map, lookup, lookup-erase_self}
use sgate.Connection.Manager.{
  Manager, Conn, Group, ServerUserKey, key_eq, remove_connection, delete_if, get_user_connection,
  get_connection, remove_member_from_all_groups,
}

-- Removing a connection twice is removing it once: the second call changes nothing.
pub remove_connection_twice :
    (host : String → String) (cm : Manager) (id : String)
    → remove_connection host (remove_connection host cm id) id ≡ remove_connection host cm id
unfolding remove_connection
remove_connection_twice host cm id = elim (Option-cases (lookup id cm.connections)) [
  | inl absent ↦ ground (arith, absent)
  | inr (conn, here) ↦ ground (arith, here, lookup-erase_self id cm.connections)
]

-- Whether a key is in the group of that identifier, if there is one.
unfoldable pub has_member : ServerUserKey → Option Group → Bool
has_member key none = false
has_member key (some group) = elim (lookup key group.members) [ none ↦ false | some u ↦ true ]

no_member :
    (key : ServerUserKey) (groups : Map String Group) (group_id : String)
    → has_member key (lookup group_id (remove_member_from_all_groups key groups)) ≡ false
unfolding remove_member_from_all_groups has_member lookup
no_member key [] group_id = refl
no_member key ((g, found) ∷ groups) group_id =
    ground (arith, no_member key groups group_id, lookup-erase_self key found.members)

-- When the connection of a user that is removed is not the one that the user's entry names, as
-- after the user has logged in again on another connection, the entry stays; but the user, on the
-- server of the removed connection, is a member of no group any more, and the index by server and
-- user has no connection for it.
pub stale_removal_drops_session :
    (host : String → String) (cm : Manager) (old new : String) (conn : Conn) (group_id : String)
    → get_connection cm old ≡ some conn
    → get_user_connection cm conn.user_uuid ≡ some new
    → new ≢ old
    → let key : ServerUserKey = record { server_id = conn.server_id; user_uuid = conn.user_uuid } in
      let cm' = remove_connection host cm old in
      (get_user_connection cm' conn.user_uuid ≡ some new)
      × (lookup key cm'.server_user_connections ≡ none)
      × (has_member key (lookup group_id cm'.groups) ≡ false)
unfolding remove_connection get_connection get_user_connection delete_if
stale_removal_drops_session host cm old new conn group_id here named other =
    let key : ServerUserKey = record { server_id = conn.server_id; user_uuid = conn.user_uuid } in
    (
      ground (arith, here, named, string_eq.beq_iff new old),
      ground (arith, here, lookup-erase_self key cm.server_user_connections),
      ground (arith, here, no_member key cm.groups group_id),
    )
