-- ===== src/Types.antt =====
-- internal/types: what the gateway's packages share.
pub mod Filters
pub mod StreamData
mod Scenarios
