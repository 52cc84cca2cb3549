-- ===== src/Crypto/Envelope.antt =====
-- internal/crypto/envelope.go. AES, GCM, SHA-256, base64 and the random generator are parameters.
-- Keys and messages are lists of bytes.
mod Defs
pub mod RoundTrip
unfoldable pub use Defs.*
