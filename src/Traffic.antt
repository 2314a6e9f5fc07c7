-- ===== src/Traffic.antt =====
-- internal/traffic: how traffic is shed and shaped.
pub mod Degradation
pub mod Canary
mod Scenarios
