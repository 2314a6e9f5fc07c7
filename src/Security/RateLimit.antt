-- ===== src/Security/RateLimit.antt =====
-- internal/security/ratelimit.go: the token buckets and the limiter's tables.
pub mod Bucket
pub mod Rate
pub mod Limiter
mod Scenarios
