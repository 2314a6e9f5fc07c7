-- ===== src/Connection.antt =====
-- internal/connection: the frames that are written to a client and the table of connections.
pub mod Frames
pub mod Manager
pub mod ShardedMap
pub mod MsgRate
mod Scenarios
