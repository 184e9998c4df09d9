-- ===== src/Redis.antt =====
-- The cache of task lists: internal/storage/redis.
pub mod TaskCache
pub mod Invalidation
pub mod Effects
mod Tests
