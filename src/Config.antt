-- ===== src/Config.antt =====
-- config/config.go
pub mod Types
mod Manager
pub mod Reload
unfoldable pub use Manager.*
