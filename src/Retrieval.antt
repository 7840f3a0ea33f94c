-- ===== src/Retrieval.antt =====
-- Retrieval of records: src/research_registry/retrieval.
pub mod Records
pub mod Relationships
pub mod Lexical
