-- ===== src/Auth.antt =====
-- Registration and login: internal/service/auth.
pub mod Service
mod Tests
