-- ===== src/Lake.antt =====
-- src/gridlens/lake/
mod Tests
pub mod Query
pub mod Bronze
pub mod Backfill
pub mod Gaps
pub mod Staging
