-- ===== src/Crypto/Signature.antt =====
-- internal/crypto/hmac.go. HMAC-SHA256 is a parameter, a function of the secret and of the bytes
-- written to it. Headers and payloads are lists of code points.
mod Defs
pub mod Freshness
pub mod RoundTrip
unfoldable pub use Defs.*
