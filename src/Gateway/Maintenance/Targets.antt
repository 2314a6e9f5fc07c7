-- ===== src/Gateway/Maintenance/Targets.antt =====
-- What a mark does: logins that it refuses, and connections that it closes
-- (internal/gateway/maintenance.go).
use sgate.Prelude.{
  ◌≡◌, String, not, if◌then◌else◌, ◌||◌, string_eq, ◌==◌, arith, Bool-cases, Option-cases, inl, inr,
  ◌&&◌,
}
use sgate.Prelude.Maps.{lookup, lookup-insert, lookup-erase}
use sgate.Connection.Manager.{Conn}
use sgate.Gateway.Maintenance.{
  MaintenanceState, enable, disable, server_marked, zone_marked, zone_of_server,
  is_maintenance_target, matches,
}

module _ (pool_zone : String → String) (own_zone : String) where
  -- A connection's server is a target of maintenance after a server or a zone is marked exactly if it
  -- was one before or the mark's snapshot, by its test, takes the connection.
  pub enable-matches :
      (st : MaintenanceState) (server_id zone reason : String) (conn : Conn)
      → is_maintenance_target pool_zone own_zone (enable st server_id zone reason) conn.server_id
        ≡ (is_maintenance_target pool_zone own_zone st conn.server_id
            || matches pool_zone own_zone server_id zone conn)
  unfolding is_maintenance_target enable matches server_marked zone_marked
  enable-matches st server_id zone reason conn =
      let target = conn.server_id in
      let home = zone_of_server pool_zone own_zone target in
      ground (
        arith,
        lookup-insert server_id target reason st.servers,
        lookup-insert zone home reason st.zones,
        string_eq.beq_iff server_id target,
        string_eq.beq_iff target server_id,
        string_eq.beq_iff zone home,
        string_eq.beq_iff home zone,
      )

-- Taking a mark away reports whether there was one. Afterwards the mark is gone, and the marks of
-- every other server and zone are what they were.
pub disable-marks :
    (st : MaintenanceState) (server_id zone other : String)
    → let (st', removed) = disable st server_id zone in
      (removed ≡ (if server_id == "" then zone_marked st zone else server_marked st server_id))
      × (server_marked st' other
          ≡ (server_marked st other && not (not (server_id == "") && (server_id == other))))
      × (zone_marked st' other
          ≡ (zone_marked st other && not ((server_id == "") && (zone == other))))
unfolding disable server_marked zone_marked
disable-marks st server_id zone other = elim (Bool-cases (server_id == "")) [
  | inl by_zone ↦ elim (Option-cases (lookup zone st.zones)) [
    | inl absent ↦ ground (arith, by_zone, absent, string_eq.beq_iff zone other)
    | inr (reason, there) ↦
        ground
          (arith, by_zone, there, lookup-erase zone other st.zones, string_eq.beq_iff zone other)
  ]
  | inr by_server ↦ elim (Option-cases (lookup server_id st.servers)) [
    | inl absent ↦ ground (arith, by_server, absent, string_eq.beq_iff server_id other)
    | inr (reason, there) ↦ ground (
      arith,
      by_server,
      there,
      lookup-erase server_id other st.servers,
      string_eq.beq_iff server_id other,
    )
  ]
]
