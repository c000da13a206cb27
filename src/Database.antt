-- ===== src/Database.antt =====
-- src/database/: the wrapper of SQLite, the tables, and the files beside the database.
pub mod Sqlite
pub mod Schema
pub mod World
pub mod Disk
pub mod Connection
pub mod Checks
pub mod Objects
pub mod Users
pub mod Memory
