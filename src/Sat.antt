-- ===== src/Sat.antt =====
-- The package internal/sat.
pub mod Strict
pub mod Cnf
pub mod Meaning
pub mod Cube
pub mod Dimacs
pub mod Apply
pub mod Verify
pub mod Kissat
mod Tests
