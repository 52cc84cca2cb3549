-- ===== src/Crypto.antt =====
-- internal/crypto
pub mod Signature
pub mod Envelope
