-- ===== src/Connection/Manager/Groups.antt =====
-- The groups of the connection manager (internal/connection/manager.go and group.go).
use sgate.Prelude.{
  ℕ, String, List, [], ◌∷◌, Option, none, some, if◌then◌else◌, length, nat_beq, string_eq,
}
use sgate.Prelude.Maps.{Map, lookup, insert, erase}
use sgate.Connection.Manager.{Manager, Group, ServerUserKey, key_eq}

abbrev pub group_or : String → Option Group → Group
group_or group_id none = record { name = group_id; members = [] }
group_or group_id (some group) = group

unfoldable pub add_user_to_group : Manager → String → ServerUserKey → Manager
add_user_to_group cm group_id key =
    let group = group_or group_id (lookup group_id cm.groups) in
    record cm {
      groups = insert group_id (record group { members = insert key tt group.members }) cm.groups;
    }

unfoldable pub remove_user_from_group : Manager → String → ServerUserKey → Manager
remove_user_from_group cm group_id key = elim (lookup group_id cm.groups) [
  | none ↦ cm
  | some group ↦
      let left = erase key group.members in
      if nat_beq (length left) 0
      then record cm { groups = erase group_id cm.groups }
      else record cm { groups = insert group_id (record group { members = left }) cm.groups }
]

unfoldable pub create_group : Manager → String → String → Manager
create_group cm group_id group_name = elim (lookup group_id cm.groups) [
  | none ↦ record cm {
    groups = insert group_id (record { name = group_name; members = [] }) cm.groups;
  }
  | some group ↦ cm
]

unfoldable pub delete_group : Manager → String → Manager
delete_group cm group_id = record cm { groups = erase group_id cm.groups }

unfoldable pub get_group_member_count : Manager → String → ℕ
get_group_member_count cm group_id = elim (lookup group_id cm.groups) [
  | none ↦ 0
  | some group ↦ length group.members
]

unfoldable pub sessions_of : Map ServerUserKey String → Map ServerUserKey Unit → List String
sessions_of sessions [] = []
sessions_of sessions ((key, u) ∷ members) =
    let rest = sessions_of sessions members in
    elim (lookup key sessions) [ none ↦ rest | some id ↦ id ∷ rest ]

unfoldable pub get_group_sessions : Manager → String → List String
get_group_sessions cm group_id = elim (lookup group_id cm.groups) [
  | none ↦ []
  | some group ↦ sessions_of cm.server_user_connections group.members
]
