-- ===== src/Persistence.antt =====
-- crates/persistence/src: the SQLite database and the repositories over it.
pub mod Codec
pub mod Tables
pub mod Tasks
pub mod Runs
pub mod Settings
pub mod References
pub mod Integrity
pub mod Interface
pub mod Sqlite
pub mod Sample
mod Examples
