-- ===== src/Slogx.antt =====
-- The logging library of pkg/slogx, and the logger of pkg/logger.
pub mod Masker
pub mod Config
pub mod Handler
pub mod Logger
pub mod Removal
pub mod Panics
pub mod Cache
pub mod Clone
pub mod Loggers
pub mod Alone
mod Tests
