-- ===== src/Webhook/Engine.antt =====
-- Engine of internal/webhook/engine.go, what it does around a delivery: the dead-letter item, the
-- workers, the poller of the Redis stream.
mod Defs
pub mod Queue
pub mod Ending
unfoldable pub use Defs.*
