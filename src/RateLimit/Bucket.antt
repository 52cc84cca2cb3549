-- ===== src/RateLimit/Bucket.antt =====
-- TokenBucketLimiter of internal/ratelimit/token_bucket.go. `float64` is a parameter.
mod Defs
pub mod Tokens
unfoldable pub use Defs.*
