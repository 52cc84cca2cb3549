-- ===== src/RateLimit/Script.antt =====
-- SlidingWindowLuaScript of internal/ratelimit/lua.go, over the commands of Redis that it calls.
mod Defs
pub mod Commands
pub mod Admission
unfoldable pub use Defs.*
