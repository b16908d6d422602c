-- ===== src/Crypto.antt =====
-- Stored secrets and passwords: internal/crypto.
pub mod Keyring
pub mod Password
pub mod Fixtures
mod Examples
