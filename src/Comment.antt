-- ===== src/Comment.antt =====
-- Comments on tasks: internal/service/comment.
pub mod Service
mod Tests
