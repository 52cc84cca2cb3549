-- ===== src/RateLimit/Window.antt =====
-- InMemoryLimiter of internal/ratelimit/limiter.go. The mutex makes each method one step. The clock
-- is an argument of `check`; its error is nil on every path, and is left out.
mod Defs
pub mod Prune
pub mod Reference
pub mod Refinement
pub mod Quota
pub mod Rate
pub mod Profile
pub mod Overages
unfoldable pub use Defs.*
