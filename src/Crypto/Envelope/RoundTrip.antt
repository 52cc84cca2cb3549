-- ===== src/Crypto/Envelope/RoundTrip.antt =====
-- What the cipher encrypts it decrypts, whatever the configured key.
use aegis_pulse.Base.{
  ℕ, ◌≡◌, ◌==◌, refl, ap, Option, none, some, [], ◌∷◌, ◌++◌, inr, if◌then◌else◌, ltb, length,
  length-append, false, take, drop, Text, text_eq, hex_encode, hex_decode, hex_decode-hex_encode,
  length-hex_encode, AreBytes, arith, if-keeps,
}
use aegis_pulse.Crypto.Envelope.Defs.{
  Primitives, IsStandard, raw_or_digest, hex_or_raw, resolve_raw, resolve_master_key,
  new_envelope_cipher, encrypt, decrypt, open_with,
}

take_append : (xs ys : Text) → take (length xs) (xs ++ ys) ≡ xs
take_append [] ys = refl
take_append (x ∷ xs) ys = ap (◌∷◌ x) (take_append xs ys)

drop_append : (xs ys : Text) → drop (length xs) (xs ++ ys) ≡ ys
drop_append [] ys = refl
drop_append (x ∷ xs) ys = drop_append xs ys

module _ {B G : Type 0} {p : Primitives B G} (law : IsStandard p) where
  raw_or_digest-32 : (raw : Text) → length (raw_or_digest p raw) ≡ 32
  raw_or_digest-32 raw = ground (arith, law.length-sum256 raw)

  hex_or_raw-32 : (raw : Text) (o : Option Text) → length (hex_or_raw p raw o) ≡ 32
  hex_or_raw-32 raw none = raw_or_digest-32 raw
  hex_or_raw-32 raw (some decoded) = ground (arith, raw_or_digest-32 raw)

  resolved-32 : (raw : Text) → length (resolve_raw p raw) ≡ 32
  resolved-32 raw =
      if-keeps (λ k. length k ≡ 32) (length raw == 64) _ _ (hex_or_raw-32 raw (hex_decode raw))
        (raw_or_digest-32 raw)

  -- Where SHA-256 digests have 32 bytes, the master key has 32 bytes, whatever the environment and the
  -- configuration hold.
  pub length-resolve_master_key :
      (env raw_key : Text) → length (resolve_master_key p env raw_key) ≡ 32
  unfolding resolve_master_key
  length-resolve_master_key env raw_key = resolved-32 (if text_eq env [] then raw_key else env)

  open_with-seal :
      (g : G) (nonce plaintext : Text)
      → length nonce ≡ p.nonce_size g
      → open_with p (nonce ++ p.seal g nonce plaintext) (inr g) ≡ inr plaintext
  open_with-seal g nonce plaintext size =
      let long : ltb (length (nonce ++ p.seal g nonce plaintext)) (length nonce) ≡ false =
        ground (arith, length-append nonce (p.seal g nonce plaintext)) in
      rw
        (
          ← size,
          long,
          take_append nonce (p.seal g nonce plaintext),
          drop_append nonce (p.seal g nonce plaintext),
          law.open-seal g nonce plaintext size,
        )
        refl

  -- Where the primitives do what their documentation says, and the generator gives as many random
  -- bytes as are read: for every environment, configured key and plaintext, encryption succeeds, and
  -- the cipher decrypts what it gives to the plaintext.
  pub decrypt-encrypt :
      (random : ℕ → Option Text) (env raw_key plaintext : Text)
      → ((n : ℕ) → (nonce : Text) × (random n ≡ some nonce) × (length nonce ≡ n))
      → (encoded : Text) × (encrypt p random (new_envelope_cipher p env raw_key) plaintext
          ≡ inr encoded)
        × (decrypt p (new_envelope_cipher p env raw_key) encoded ≡ inr plaintext)
  unfolding new_envelope_cipher encrypt decrypt
  decrypt-encrypt random env raw_key plaintext reads =
      let (b, made) = law.new_cipher-32 _ (length-resolve_master_key env raw_key) in
      let (g, wrapped) = law.new_gcm-any b in
      let (nonce, drawn, size) = reads (p.nonce_size g) in
      let sealed = nonce ++ p.seal g nonce plaintext in
      (
        p.base64_encode sealed,
        rw (made, wrapped, drawn) refl,
        rw (law.decode-encode sealed, made, wrapped) (open_with-seal g nonce plaintext size),
      )

  resolve_raw-hex_encode :
      (key : Text) → AreBytes key → length key ≡ 32 → resolve_raw p (hex_encode key) ≡ key
  resolve_raw-hex_encode key bytes size =
      rw (length-hex_encode key, size, hex_decode-hex_encode key bytes, size) refl

  resolve_raw-raw : (key : Text) → length key ≡ 32 → resolve_raw p key ≡ key
  resolve_raw-raw key size = rw size refl

  -- A key of 32 bytes can be configured as it is or in hexadecimal, in the configuration or in the
  -- environment, which comes first: all give that key.
  pub resolve_master_key-hex_encode :
      (key raw_key : Text)
      → AreBytes key
      → length key ≡ 32
      → (resolve_master_key p [] (hex_encode key) ≡ key)
        × (resolve_master_key p [] key ≡ key)
        × (resolve_master_key p (hex_encode key) raw_key ≡ key)
        × (resolve_master_key p key raw_key ≡ key)
  unfolding resolve_master_key text_eq hex_encode
  resolve_master_key-hex_encode [] raw_key bytes size = absurd (omega arith)
  resolve_master_key-hex_encode (b ∷ bs) raw_key bytes size = (
    resolve_raw-hex_encode (b ∷ bs) bytes size,
    resolve_raw-raw (b ∷ bs) size,
    resolve_raw-hex_encode (b ∷ bs) bytes size,
    resolve_raw-raw (b ∷ bs) size,
  )
