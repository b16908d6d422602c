-- ===== src/App.antt =====
-- What joins the parts: internal/app.
pub mod Submit
pub mod Queued
pub mod Auth
pub mod Conversation
mod Examples
