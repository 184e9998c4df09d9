-- ===== src/Task.antt =====
-- The task service of internal/service/task.
pub mod Diff
pub mod Key
pub mod Service
mod Tests
