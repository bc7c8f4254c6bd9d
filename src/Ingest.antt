-- ===== src/Ingest.antt =====
-- src/gridlens/ingest/
pub mod Xml
pub mod Document
pub mod Sample
pub mod Redaction
pub mod Parse
pub mod Client
pub mod Rte
pub mod RteParse
