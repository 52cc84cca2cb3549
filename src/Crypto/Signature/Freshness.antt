-- ===== src/Crypto/Signature/Freshness.antt =====
-- What an accepted signature says of its timestamp, in integers that do not wrap.
use aegis_pulse.Base.{
  ℕ, ◌<◌, ◌^◌, false, ◌≡◌, refl, inl, inr, ◌⊎◌, Option, none, some, List, map, arith, sym, ℤ, pos,
  pos_part, neg_part, ◌≤ℤ◌, ◌-ℤ◌, IsInt64, two63, sub64, sub64-Sub64, -ℤ_parts, one_part, ltb_ℤ,
  Text, text_eq→eq, to_lower, parse_int, parse_int-IsInt64, hex_encode,
}
use native.Mathlib.Decide.{dec_le}
use aegis_pulse.Crypto.Signature.Defs.{
  parse_header, signed_text, check_parsed, resolve_now, verify_signature,
}

-- A time of the clock: after 1970, and before the year 146 billion.
abbrev pub IsClock : ℤ → Type 0
IsClock now = (neg_part now ≡ 0) × (pos_part now < 2 ^ 62)

-- At most `tolerance` seconds old, and at most 10 seconds ahead of the clock.
abbrev pub IsFresh : ℤ → ℤ → ℤ → Type 0
IsFresh tolerance now ts = (now -ℤ ts ≤ℤ tolerance) × (ts -ℤ now ≤ℤ pos 10)

-- The two tests of the timestamp, of which each is made on a difference that may wrap.
window_exact :
    (tolerance now ts : ℤ)
    → IsInt64 tolerance
    → IsInt64 ts
    → IsClock now
    → ltb_ℤ tolerance (sub64 now ts) ≡ false
    → ltb_ℤ (pos 10) (sub64 ts now) ≡ false
    → IsFresh tolerance now ts ⊎ (now -ℤ ts ≡ pos two63)
window_exact tolerance now ts ht hs hn old new =
    let now64 : IsInt64 now = omega arith in
    elim (dec_le two63 (pos_part (now -ℤ ts))) [
      | yes far ↦ inr (
          ground (
            arith,
            sub64-Sub64 now ts now64 hs,
            sub64-Sub64 ts now hs now64,
            -ℤ_parts now ts,
            -ℤ_parts ts now,
            one_part (now -ℤ ts),
          ))
      | no near ↦ inl (
          ground (
            arith,
            sub64-Sub64 now ts now64 hs,
            sub64-Sub64 ts now hs now64,
            -ℤ_parts now ts,
            -ℤ_parts ts now,
            one_part (now -ℤ ts),
          ))
    ]

-- The header carries a timestamp that is an `int64`, and the HMAC of that timestamp and the body
-- under the secret, in letters of either case.
pub record IsAuthentic (hmac : Text → Text → List ℕ) (body header secret : Text) (ts : ℤ)
    : Type 0 where
  pub stamp : parse_int (parse_header header).timestamp_str ≡ some ts
  pub digest :
      map to_lower (parse_header header).v1_hex ≡ hex_encode (hmac secret (signed_text ts body))

module _ (hmac : Text → Text → List ℕ) where
  check_parsed-none :
      (body header secret : Text) (tolerance now : ℤ) (o : Option ℤ)
      → parse_int (parse_header header).timestamp_str ≡ o
      → check_parsed hmac body (parse_header header).v1_hex secret tolerance now o ≡ none
      → IsInt64 tolerance
      → IsClock now
      → (ts : ℤ) × IsAuthentic hmac body header secret ts
        × (IsFresh tolerance now ts ⊎ (now -ℤ ts ≡ pos two63))
  unfolding verify_signature
  check_parsed-none body header secret tolerance now none e h ht hn = cc
  check_parsed-none body header secret tolerance now (some ts) e h ht hn = (
    ts,
    record { stamp = e; digest = sym (text_eq→eq _ _ (ground arith)) },
    window_exact tolerance now ts ht (parse_int-IsInt64 _ ts e) hn (ground arith) (ground arith),
  )

  -- A signature that is accepted carries the HMAC of its timestamp and of the body, and the
  -- timestamp is at most `tolerance` seconds old and at most 10 seconds ahead, as integers that do
  -- not wrap, or else exactly 2^63 seconds old. `tolerance` is an `int64`, and the time is a clock's.
  pub verify_signature_sound :
      (body header secret : Text) (tolerance now clock : ℤ)
      → IsInt64 tolerance
      → IsClock (resolve_now now clock)
      → verify_signature hmac body header secret tolerance now clock ≡ none
      → (ts : ℤ) × IsAuthentic hmac body header secret ts
        × (IsFresh tolerance (resolve_now now clock) ts ⊎ (resolve_now now clock -ℤ ts ≡ pos two63))
  unfolding verify_signature
  verify_signature_sound body header secret tolerance now clock ht hn h =
      check_parsed-none body header secret tolerance (resolve_now now clock) _ refl (ground arith)
        ht hn
