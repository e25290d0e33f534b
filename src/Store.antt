-- ===== src/Store.antt =====
-- The package internal/store: the SQLite database as lists of rows, and the methods of `Store`.
pub mod Migrations
pub mod Rows
pub mod Sessions
pub mod Observations
pub mod Audit
pub mod Memories
pub mod Removal
pub mod Embeddings
pub mod Imports
pub mod Compaction
pub mod Decay
pub mod Text
pub mod Runs
pub mod Reports
