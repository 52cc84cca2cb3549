-- ===== src/Crypto/Signature/RoundTrip.antt =====
-- What `generate_signature` writes, `verify_signature` accepts.
use aegis_pulse.Base.{
  ℕ, ◌≡◌, ◌≢◌, refl, none, some, true, ltb_ℤ, List, [], ◌∷◌, ◌++◌, arith, ℤ, ◌-ℤ◌, IsInt64,
  sub64_exact, Text, codes, text_eq, text_eq_refl, text_eq→eq, AllPass, is_plain, strip_prefix,
  split-plain, split-comma, trim_space-plain, print_int, AllPass-print_int, print_int-ne-nil,
  parse_int-print_int, hex_encode, AllPass-hex_encode, hex_encode-to_lower, Bool-cases, inl, inr,
  false,
}
use aegis_pulse.Crypto.Signature.Defs.{
  expired_timestamp, scan_parts, parse_header, signed_text, generate_signature, verify_signature,
  resolve_now,
}
use aegis_pulse.Crypto.Signature.Freshness.{IsFresh}

text_eq-ne : (s t : Text) → s ≢ t → text_eq s t ≡ false
text_eq-ne s t h = elim (Bool-cases (text_eq s t)) [
  | inl same ↦ absurd (h (text_eq→eq s t same))
  | inr differ ↦ differ
]

hex_encode-ne-nil : (bs : List ℕ) → bs ≢ [] → hex_encode bs ≢ []
unfolding hex_encode
hex_encode-ne-nil [] h = absurd (h refl)
hex_encode-ne-nil (b ∷ bs) h = λ e. cc

-- A header of two plain fields is read back.
parse_header-fields :
    (stamp digest : Text)
    → AllPass is_plain stamp
    → AllPass is_plain digest
    → parse_header (codes "t=" ++ stamp ++ (codes ",v1=" ++ digest))
      ≡ record { timestamp_str = stamp; v1_hex = digest }
unfolding parse_header scan_parts is_plain
parse_header-fields stamp digest hs hd =
    rw (split-comma (codes "t=" ++ stamp) (codes "v1=" ++ digest) (refl, (refl, hs))) (
      rw (split-plain (codes "v1=" ++ digest) (refl, (refl, (refl, hd)))) (
        rw
          (
            trim_space-plain (codes "t=" ++ stamp) (refl, (refl, hs)),
            trim_space-plain (codes "v1=" ++ digest) (refl, (refl, (refl, hd))),
          )
          (unfold strip_prefix in refl)))

module _ (hmac : Text → Text → List ℕ) where
  parse_header-generate_signature :
      (payload secret : Text) (ts : ℤ)
      → parse_header (generate_signature hmac payload secret ts) ≡ record {
        timestamp_str = print_int ts;
        v1_hex = hex_encode (hmac secret (signed_text ts payload));
      }
  unfolding generate_signature
  parse_header-generate_signature payload secret ts =
      parse_header-fields _ _ (AllPass-print_int ts)
        (AllPass-hex_encode (hmac secret (signed_text ts payload)))

  pub header_ne :
      (payload secret : Text) (ts : ℤ)
      → text_eq (generate_signature hmac payload secret ts) [] ≡ false
  unfolding generate_signature text_eq
  header_ne payload secret ts = refl

  -- What is signed at `ts` is accepted with the same payload and secret at every time of the
  -- window: at most `tolerance` seconds later and at most 10 earlier. The hash is not empty, and
  -- the two differences are in the range of an `int64`.
  pub verify-generate_signature :
      (payload secret : Text) (ts tolerance now clock : ℤ)
      → IsInt64 ts
      → IsInt64 (resolve_now now clock -ℤ ts)
      → IsInt64 (ts -ℤ resolve_now now clock)
      → hmac secret (signed_text ts payload) ≢ []
      → IsFresh tolerance (resolve_now now clock) ts
      → verify_signature hmac payload
          (generate_signature hmac payload secret ts)
          secret
          tolerance
          now
          clock
        ≡ none
  unfolding verify_signature
  verify-generate_signature payload secret ts tolerance now clock hts h1 h2 ne fresh =
      rw (parse_header-generate_signature payload secret ts) (
        rw
          (
            header_ne payload secret ts,
            text_eq-ne _ _ (print_int-ne-nil ts),
            text_eq-ne _ _ (hex_encode-ne-nil _ ne),
            parse_int-print_int ts hts,
            sub64_exact _ _ h1,
            sub64_exact _ _ h2,
            hex_encode-to_lower (hmac secret (signed_text ts payload)),
            text_eq_refl,
          )
          (ground arith))

  -- What is signed at `ts` is rejected as expired once it is more than `tolerance` seconds old.
  pub verify-expired :
      (payload secret : Text) (ts tolerance now clock : ℤ)
      → IsInt64 ts
      → IsInt64 (resolve_now now clock -ℤ ts)
      → hmac secret (signed_text ts payload) ≢ []
      → ltb_ℤ tolerance (resolve_now now clock -ℤ ts) ≡ true
      → verify_signature hmac payload
          (generate_signature hmac payload secret ts)
          secret
          tolerance
          now
          clock
        ≡ some (expired_timestamp (resolve_now now clock -ℤ ts) tolerance)
  unfolding verify_signature
  verify-expired payload secret ts tolerance now clock hts range ne old =
      rw (parse_header-generate_signature payload secret ts) (
        rw
          (
            header_ne payload secret ts,
            text_eq-ne _ _ (print_int-ne-nil ts),
            text_eq-ne _ _ (hex_encode-ne-nil _ ne),
            parse_int-print_int ts hts,
            sub64_exact _ _ range,
            old,
          )
          refl)
