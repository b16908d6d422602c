-- ===== src/Queue/RateLimit.antt =====
-- Pacing of deliveries: internal/queue/ratelimit.go.
pub mod Budget
pub mod Bucket
