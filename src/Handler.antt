-- ===== src/Handler.antt =====
-- The request handlers of internal/handler.
pub mod Response
pub mod Users
pub mod Teams
pub mod Comments
pub mod Tasks
pub mod Reports
pub mod Outcomes
pub mod Changes
mod Tests
