-- ===== src/Release.antt =====
-- Releases: src/research_registry/release.
pub mod Gates
