-- ===== src/Migration.antt =====
-- migration_runner.py: packaged migrations and the runner that applies them.
pub mod Script
pub mod Packages
pub mod Runner
