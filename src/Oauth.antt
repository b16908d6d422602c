-- ===== src/Oauth.antt =====
-- Access tokens for Microsoft 365: internal/oauth.
pub mod Provider
pub mod Xoauth2
pub mod Fixtures
mod Examples
