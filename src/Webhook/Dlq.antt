-- ===== src/Webhook/Dlq.antt =====
-- DLQManager of internal/webhook/dlq.go.
mod Defs
pub mod Retry
pub mod Stream
unfoldable pub use Defs.*
