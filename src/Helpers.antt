-- ===== src/Helpers.antt =====
-- src/helpers.cpp, and the decimal conversions of the standard library that the sources use.
pub mod Strings
pub mod Paths
pub mod Uuid
pub mod Decimal
