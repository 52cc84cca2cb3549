-- ===== src/Crypto/Envelope/Defs.antt =====
-- EnvelopeCipher: the definitions.
use aegis_pulse.Base.{
  ℕ, ◌≡◌, ◌==◌, Option, none, some, [], ◌++◌, ◌⊎◌, inl, inr, if◌then◌else◌, ltb, length, take, drop,
  Text, text_eq, hex_encode, hex_decode,
}

-- What the cipher calls. A block cipher is made of a key, an AEAD of a block cipher; `none` is an
-- error.
pub record Primitives (B G : Type 0) : Type 0 where
  pub sum256 : Text → Text
  pub new_cipher : Text → Option B
  pub new_gcm : B → Option G
  pub nonce_size : G → ℕ
  pub seal : G → Text → Text → Text
  pub open_sealed : G → Text → Text → Option Text
  pub base64_encode : Text → Text
  pub base64_decode : Text → Option Text

-- What their documentation says of them.
pub record IsStandard {B G : Type 0} (p : Primitives B G) : Type 0 where
  pub length-sum256 : (s : Text) → length (p.sum256 s) ≡ 32
  pub new_cipher-32 : (key : Text) → length key ≡ 32 → (b : B) × (p.new_cipher key ≡ some b)
  pub new_gcm-any : (b : B) → (g : G) × (p.new_gcm b ≡ some g)
  pub open-seal :
      (g : G) (nonce plaintext : Text)
      → length nonce ≡ p.nonce_size g
      → p.open_sealed g nonce (p.seal g nonce plaintext) ≡ some plaintext
  pub decode-encode : (s : Text) → p.base64_decode (p.base64_encode s) ≡ some s

pub data EnvelopeError : Type 0 where
  aes_cipher gcm_mode nonce_generation base64_error : EnvelopeError
  ciphertext_too_short decryption_failed : EnvelopeError

pub record EnvelopeCipher : Type 0 where
  pub master_key : Text

module _ {B G : Type 0} (p : Primitives B G) where
  -- A raw key of 32 bytes is the key; of any other, the digest is.
  abbrev pub raw_or_digest : Text → Text
  raw_or_digest raw_key = if length raw_key == 32 then raw_key else p.sum256 raw_key

  abbrev pub hex_or_raw : Text → Option Text → Text
  hex_or_raw raw_key none = raw_or_digest raw_key
  hex_or_raw raw_key (some decoded) =
      if length decoded == 32 then decoded else raw_or_digest raw_key

  abbrev pub resolve_raw : Text → Text
  resolve_raw raw = if length raw == 64 then hex_or_raw raw (hex_decode raw) else raw_or_digest raw

  -- `env` is AEGIS_MASTER_KEY, empty where it is not set.
  unfoldable pub resolve_master_key : Text → Text → Text
  resolve_master_key env raw_key = resolve_raw (if text_eq env [] then raw_key else env)

  unfoldable pub new_envelope_cipher : Text → Text → EnvelopeCipher
  unfolding resolve_master_key
  new_envelope_cipher env raw_key = record { master_key = resolve_master_key env raw_key }

  abbrev gcm_of : Option G → EnvelopeError ⊎ G
  gcm_of none = inl gcm_mode
  gcm_of (some g) = inr g

  abbrev block_of : Option B → EnvelopeError ⊎ G
  block_of none = inl aes_cipher
  block_of (some b) = gcm_of (p.new_gcm b)

  -- `aes.NewCipher` and `cipher.NewGCM`.
  abbrev pub aead : EnvelopeCipher → EnvelopeError ⊎ G
  aead c = block_of (p.new_cipher c.master_key)

  abbrev seal_with : G → Text → Option Text → EnvelopeError ⊎ Text
  seal_with g plaintext none = inl nonce_generation
  seal_with g plaintext (some nonce) = inr (p.base64_encode (nonce ++ p.seal g nonce plaintext))

  abbrev encrypt_with : (ℕ → Option Text) → Text → EnvelopeError ⊎ G → EnvelopeError ⊎ Text
  encrypt_with random plaintext (inl e) = inl e
  encrypt_with random plaintext (inr g) = seal_with g plaintext (random (p.nonce_size g))

  -- `random n` is what reading `n` random bytes gives.
  unfoldable pub encrypt : (ℕ → Option Text) → EnvelopeCipher → Text → EnvelopeError ⊎ Text
  encrypt random c plaintext = encrypt_with random plaintext (aead c)

  abbrev pub opened : Option Text → EnvelopeError ⊎ Text
  opened none = inl decryption_failed
  opened (some plaintext) = inr plaintext

  abbrev pub open_with : Text → EnvelopeError ⊎ G → EnvelopeError ⊎ Text
  open_with sealed (inl e) = inl e
  open_with sealed (inr g) =
      if ltb (length sealed) (p.nonce_size g)
      then inl ciphertext_too_short
      else opened (p.open_sealed g (take (p.nonce_size g) sealed) (drop (p.nonce_size g) sealed))

  abbrev decrypt_decoded : EnvelopeCipher → Option Text → EnvelopeError ⊎ Text
  decrypt_decoded c none = inl base64_error
  decrypt_decoded c (some sealed) = open_with sealed (aead c)

  unfoldable pub decrypt : EnvelopeCipher → Text → EnvelopeError ⊎ Text
  decrypt c encoded = decrypt_decoded c (p.base64_decode encoded)

  unfoldable pub hash_key : Text → Text
  hash_key api_key = hex_encode (p.sum256 api_key)
