-- ===== src/RateLimit.antt =====
-- internal/ratelimit
pub mod Result
pub mod Window
pub mod Interface
pub mod Script
pub mod Redis
pub mod Bucket
pub mod Reports
