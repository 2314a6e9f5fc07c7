-- ===== src/Backend.antt =====
-- internal/backend: the streams to the logic servers, the queue that keeps messages while a logic
-- server is away, and the pool of logic clients.
pub mod Queue
pub mod Client
pub mod Pool
mod Scenarios
