-- ===== src/Quality.antt =====
-- src/gridlens/quality/
pub mod Restatement
pub mod Bronze
pub mod Queries
