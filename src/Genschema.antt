-- ===== src/Genschema.antt =====
-- The script scripts/genschema/main.go, which draws the tables of migrations/ into the README.
pub mod Text
pub mod Patterns
pub mod Parse
pub mod Diagram
pub mod Patch
pub mod Main
mod Tests
