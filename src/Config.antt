-- ===== src/Config.antt =====
-- src/config/parser.cpp: the settings, and the file that holds them.
pub mod Json
pub mod Defaults
pub mod Reader
pub mod Layout
pub mod Keys
pub mod Branches
pub mod Fresh
pub mod Sample
