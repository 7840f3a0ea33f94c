-- ===== src/Persistence.antt =====
-- The store: src/research_registry/persistence.
pub mod Schema
pub mod ReviewState
pub mod Transaction
pub mod Mirrors
pub mod ReviewRepository
pub mod RefreshRepository
pub mod RefreshQueue
pub mod Entities
pub mod Namespaces
pub mod Owners
pub mod Numbers
pub mod Frames
pub mod Growth
pub mod SourceVersionRepository
