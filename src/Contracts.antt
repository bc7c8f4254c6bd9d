-- ===== src/Contracts.antt =====
-- src/gridlens/contracts/
mod Tests
pub mod Reference
pub mod Records
pub mod Gate
pub mod Quarantine
