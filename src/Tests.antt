-- ===== src/Tests.antt =====
-- The theorems at concrete inputs.
mod Captures
mod Decisions
mod Evidence
mod Fetches
mod Locators
mod Migrations
mod Packages
mod Queue
mod Reviews
mod Relations
mod Releases
mod Searches
mod Sources
