-- ===== src/Smtp.antt =====
-- The submission server: internal/smtpsrv.
pub mod Headers
pub mod Session
pub mod Login
pub mod Limits
pub mod Proxy
pub mod Fixtures
mod Examples
