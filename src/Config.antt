-- ===== src/Config.antt =====
-- The configuration: internal/config.
pub mod Expand
mod Examples
