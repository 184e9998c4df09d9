-- ===== src/Mysql/Storage.antt =====
-- The methods of the storages of internal/storage/mysql/{user,team,task,comment,analytics}.go, without their
-- log lines.
pub mod Users
pub mod Teams
pub mod Tasks
pub mod Comments
pub mod Analytics
