-- ===== src/Queue.antt =====
-- The delivery queue: internal/queue.
pub mod Backoff
pub mod RateLimit
pub mod Worker
mod Fixtures
mod Examples
