-- ===== src/Domain.antt =====
-- The domain rules: src/research_registry/domain.
pub mod Claims
pub mod Review
pub mod Evidence
pub mod Sources
