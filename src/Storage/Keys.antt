-- ===== src/Storage/Keys.antt =====
-- PostgresRepo of internal/storage/postgres.go.
mod Defs
pub mod Freeze
pub mod Seed
unfoldable pub use Defs.*
