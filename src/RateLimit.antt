-- ===== src/RateLimit.antt =====
-- Failed logins by address: api/internal/platform/ratelimit.
pub mod Redis
pub mod Limiter
pub mod Counters
pub mod Race
