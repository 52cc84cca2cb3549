-- ===== src/Cache.antt =====
-- internal/cache/cache.go
pub mod Breaker
pub mod Store
