-- ===== src/Cache/Breaker.antt =====
-- CircuitBreaker of internal/cache/cache.go. The mutex makes each method one step; the clock is an
-- argument of each method that reads it.
mod Defs
pub mod Invariant
pub mod Probing
pub mod Recovery
unfoldable pub use Defs.*
