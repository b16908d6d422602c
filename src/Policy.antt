-- ===== src/Policy.antt =====
-- The sender policy: internal/policy.
pub mod Address
pub mod Resolve
pub mod Source
pub mod Fixtures
mod Examples
