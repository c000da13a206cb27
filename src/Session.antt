-- ===== src/Session.antt =====
-- src/ftp/base_session.cpp and src/ftp/insecure_session.cpp: a session with one client.
pub mod State
pub mod Commands
pub mod Listing
pub mod Transfer
pub mod Insecure
pub mod Navigation
pub mod Handler
pub mod Login
pub mod Reads
pub mod Stays
pub mod Directory
pub mod Upload
pub mod Download
pub mod Messages
pub mod Places
pub mod Walk
pub mod Runs
pub mod Events
pub mod Times
pub mod Lines
pub mod Stuck
pub mod Endless
pub mod Ports
pub mod Secure
