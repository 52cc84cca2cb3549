-- ===== src/Examples/Ciphers.antt =====
-- The envelope cipher's theorems on a message of three bytes, with primitives that are made for the
-- purpose: a digest of zeros, and a tag of one byte.
use aegis_pulse.Base.{
  ℕ, ◌≡◌, ◌==◌, refl, Option, none, some, [], ◌∷◌, inr, if◌then◌else◌, length, length-replicate,
  replicate, Text, codes,
}
use aegis_pulse.Crypto.Envelope.{Primitives, IsStandard, new_envelope_cipher, encrypt, decrypt}
use aegis_pulse.Crypto.Envelope.RoundTrip.{decrypt-encrypt}

abbrev untagged : Text → Option Text
untagged [] = none
untagged (tag ∷ s) = some s

abbrev toy : Primitives Text Text
toy = record {
  sum256 = λ s. replicate 32 0;
  new_cipher = λ key. if length key == 32 then some key else none;
  new_gcm = λ b. some b;
  nonce_size = λ g. 12;
  seal = λ g nonce s. 1 ∷ s;
  open_sealed = λ g nonce s. untagged s;
  base64_encode = λ s. 2 ∷ s;
  base64_decode = untagged;
}

toy-IsStandard : IsStandard toy
toy-IsStandard = record {
  length-sum256 = λ s. refl;
  new_cipher-32 = λ key size. (key, rw size refl);
  new_gcm-any = λ b. (b, refl);
  open-seal = λ g nonce s size. refl;
  decode-encode = λ s. refl;
}

abbrev zeros : ℕ → Option Text
zeros n = some (replicate n 0)

decrypt-encrypt_example :
    (encoded : Text) × (encrypt toy zeros
        (new_envelope_cipher toy [] (codes "configured"))
        (7 ∷ 8 ∷ 9 ∷ [])
      ≡ inr encoded)
    × (decrypt toy (new_envelope_cipher toy [] (codes "configured")) encoded ≡ inr (7 ∷ 8 ∷ 9 ∷ []))
decrypt-encrypt_example =
    decrypt-encrypt toy-IsStandard zeros [] (codes "configured") (7 ∷ 8 ∷ 9 ∷ [])
      (λ n. (replicate n 0, refl, length-replicate n 0))
