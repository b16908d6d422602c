-- ===== src/Admin.antt =====
-- The management interface: internal/adminauth.
pub mod Rbac
pub mod Local
pub mod Sessions
pub mod Users
pub mod Directory
pub mod Fixtures
mod Examples
