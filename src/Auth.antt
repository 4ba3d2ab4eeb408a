-- ===== src/Auth.antt =====
-- Tokens: api/internal/platform/auth and platform/middleware/auth.go.
pub mod Jwt
pub mod Header
pub mod Bearer
