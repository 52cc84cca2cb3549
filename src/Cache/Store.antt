-- ===== src/Cache/Store.antt =====
-- SmartCache of internal/cache/cache.go. The copies that `Set` makes of its header and body are
-- what makes an entry a value here: no caller can change it later.
mod Defs
pub mod Eviction
unfoldable pub use Defs.*
