-- ===== src/Go.antt =====
-- The parts of the Go language and its standard library that the packages call.
pub mod Map
pub mod Text
pub mod Outcome
pub mod Act
pub mod Int
pub mod Trim
