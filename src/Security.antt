-- ===== src/Security.antt =====
-- internal/security: the circuit breaker, the rate limiter, the lists, the token and payload filters.
pub mod Breaker
pub mod RateLimit
pub mod Whitelist
pub mod Waf
pub mod Jwt
