-- ===== src/Gateway.antt =====
-- internal/gateway: the frames that come in, and what is done with their messages.
pub mod TcpFrames
pub mod WebSocket
pub mod Maintenance
pub mod Integrity
pub mod Pipeline
pub mod Workers
pub mod BatchValidate
pub mod Login
mod Scenarios
