-- ===== src/Middleware.antt =====
-- CORSMiddleware of internal/middleware/cors.go, and ServeHTTP of internal/proxy/proxy.go.
mod Defs
pub mod Origins
unfoldable pub use Defs.*
