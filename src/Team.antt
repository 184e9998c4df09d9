-- ===== src/Team.antt =====
-- Teams: internal/service/team.
pub mod Service
mod Tests
