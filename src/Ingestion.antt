-- ===== src/Ingestion.antt =====
-- Evidence in a new version of its source: src/research_registry/ingestion.
pub mod Reanchor
pub mod FetchPolicy
pub mod Locators
pub mod Blobs
