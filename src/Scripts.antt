-- ===== src/Scripts.antt =====
-- scripts/: what the operational scripts decide. Argument parsing and printing are left out.
mod Tests
pub mod Texts
pub mod Teardown
pub mod TableStats
pub mod Style
pub mod Commit
pub mod Athena
pub mod Bundle
