-- ===== src/Session/Secure.antt =====
-- src/ftp/secure_session.cpp: a session over TLS.
pub mod Overrides
pub mod Agreement
pub mod Probe
pub mod Handshake
pub mod Auth
pub mod Closing
