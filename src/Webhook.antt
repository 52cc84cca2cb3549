-- ===== src/Webhook.antt =====
-- internal/webhook
pub mod Adapters
pub mod Delivery
pub mod Dlq
pub mod Engine
