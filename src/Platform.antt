-- ===== src/Platform.antt =====
-- What the service starts with and reports of itself: api/internal/platform/database, platform/config,
-- platform/metrics, server/app.go and health.
pub mod Connect
pub mod Config
pub mod Settings
pub mod Metrics
pub mod Served
pub mod App
pub mod Health
pub mod Tracing
pub mod PoolStats
pub mod Ending
pub mod Main
