-- ===== src/Storage.antt =====
-- internal/storage
pub mod Redis
pub mod Keys
