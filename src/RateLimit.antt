-- ===== src/RateLimit.antt =====
-- internal/ratelimit: the limits on the number of requests.
pub mod Window
pub mod Breaker
pub mod Concurrency
mod Examples
