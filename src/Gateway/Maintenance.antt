-- ===== src/Gateway/Maintenance.antt =====
-- internal/gateway/maintenance.go: the marks of servers and zones in maintenance, and the
-- connections that a new mark concerns. `pool_zone` stands for ZoneOf of the pool of logic clients,
-- which gives "" for a server that it does not know or where there is no pool.
pub mod Targets
use sgate.Prelude.{
  String, Bool, true, false, List, [], ◌∷◌, Option, none, some, if◌then◌else◌, string_eq, ◌==◌,
}
use sgate.Prelude.Maps.{Map, lookup, insert, erase}
use sgate.Connection.Manager.{Conn}

pub record MaintenanceState : Type 0 where
  pub servers : Map String String
  pub zones : Map String String

abbrev pub new_maintenance_state : MaintenanceState
new_maintenance_state = record { servers = []; zones = [] }

unfoldable pub enable : MaintenanceState → String → String → String → MaintenanceState
enable st server_id zone reason =
    if server_id == ""
    then record st { zones = insert zone reason st.zones }
    else record st { servers = insert server_id reason st.servers }

unfoldable pub disable : MaintenanceState → String → String → MaintenanceState × Bool
disable st server_id zone =
    if server_id == ""
    then (elim (lookup zone st.zones) [
      | none ↦ (st, false)
      | some reason ↦ (record st { zones = erase zone st.zones }, true)
    ])
    else (elim (lookup server_id st.servers) [
      | none ↦ (st, false)
      | some reason ↦ (record st { servers = erase server_id st.servers }, true)
    ])

abbrev pub is_present : Option String → Bool
is_present none = false
is_present (some reason) = true

unfoldable pub server_marked : MaintenanceState → String → Bool
server_marked st server_id = is_present (lookup server_id st.servers)

unfoldable pub zone_marked : MaintenanceState → String → Bool
zone_marked st zone = is_present (lookup zone st.zones)

module _ (pool_zone : String → String) (own_zone : String) where
  unfoldable pub zone_of_server : String → String
  zone_of_server server_id = if pool_zone server_id == "" then own_zone else pool_zone server_id

  unfoldable pub is_maintenance_target : MaintenanceState → String → Bool
  is_maintenance_target st server_id =
      if server_id == ""
      then false
      else if server_marked st server_id
      then true
      else zone_marked st (zone_of_server server_id)

  -- Whether a connection's server is the one named, or of the zone.
  unfoldable pub matches : String → String → Conn → Bool
  matches server_id zone conn =
      if conn.server_id == ""
      then false
      else if server_id == ""
      then zone_of_server conn.server_id == zone
      else conn.server_id == server_id

  unfoldable pub snapshot_maintenance_targets : String → String → List Conn → List Conn
  snapshot_maintenance_targets server_id zone [] = []
  snapshot_maintenance_targets server_id zone (conn ∷ conns) =
      let rest = snapshot_maintenance_targets server_id zone conns in
      if matches server_id zone conn then conn ∷ rest else rest
