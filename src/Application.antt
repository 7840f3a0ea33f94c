-- ===== src/Application.antt =====
-- The operations on the store: src/research_registry/application.
pub mod Refresh
pub mod Review
pub mod SourceVersions
