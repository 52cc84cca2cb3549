-- ===== src/RateLimit/Redis.antt =====
-- RedisLimiter of internal/ratelimit/limiter.go.
mod Defs
pub mod Agreement
mod Tracking
pub mod Refinement
pub mod Fallback
unfoldable pub use Defs.*
