-- ===== src/Store.antt =====
-- The database: internal/store.
pub mod Rows
pub mod Models
pub mod Messages
pub mod Users
pub mod Sessions
pub mod Directory
pub mod Fixtures
mod Examples
