-- ===== src/Webhook/Delivery.antt =====
-- Engine of internal/webhook/engine.go: publishing, the fan-out to sinks, and delivery with retries.
mod Defs
pub mod Attempts
unfoldable pub use Defs.*
