-- ===== src/Start.antt =====
-- src/main.cpp: the start of the program, up to the server.
pub mod Main
pub mod Accounts
pub mod Checked
pub mod Changed
pub mod Backup
pub mod Created
pub mod Steps
pub mod Synced
pub mod Kept
pub mod Book
