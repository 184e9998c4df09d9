-- ===== src/Middleware.antt =====
-- The middleware of internal/middleware.
pub mod Jwt
pub mod Sessions
pub mod RateLimit
pub mod RequestId
pub mod Chain
mod Tests
