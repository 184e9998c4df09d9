-- ===== src/Mysql.antt =====
-- The storages of internal/storage/mysql.
pub mod Rows
pub mod Conversions
pub mod Driver
pub mod Storage
pub mod Analytics
pub mod Statements
pub mod Contract
pub mod Sent
pub mod Reads
pub mod Transactions
pub mod Paging
pub mod Query
pub mod Pages
mod Tests
