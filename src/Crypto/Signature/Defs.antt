-- ===== src/Crypto/Signature/Defs.antt =====
-- internal/crypto/hmac.go: the definitions.
use aegis_pulse.Base.{
  ℕ, Option, none, some, List, [], ◌∷◌, ◌++◌, map, ◌||◌, if◌then◌else◌, ltb_ℤ, eqb_ℤ, ℤ, pos, sub64,
  Text, codes, text_eq, strip_prefix, split, trim_space, to_lower, print_int, parse_int, hex_encode,
}

-- The five errors; two carry the numbers that their message shows.
pub data SignatureError : Type 0 where
  missing_signature invalid_header_format : SignatureError
  expired_timestamp : ℤ → ℤ → SignatureError
  clock_drift : ℤ → SignatureError
  signature_mismatch : SignatureError

-- The two variables that the loop over the parts of the header fills.
pub record Fields : Type 0 where
  pub timestamp_str : Text
  pub v1_hex : Text

-- The body of the loop, on a part that is trimmed.
abbrev assign_v1 : Option Text → Fields → Fields
assign_v1 none acc = acc
assign_v1 (some v) acc = record acc { v1_hex = v }

abbrev assign_part : Option Text → Option Text → Fields → Fields
assign_part (some t) v acc = record acc { timestamp_str = t }
assign_part none v acc = assign_v1 v acc

unfoldable pub scan_parts : List Text → Fields → Fields
scan_parts [] acc = acc
scan_parts (part ∷ parts) acc =
    let p = trim_space part in
    scan_parts parts (assign_part (strip_prefix (codes "t=") p) (strip_prefix (codes "v1=") p) acc)

unfoldable pub parse_header : Text → Fields
parse_header header = scan_parts (split b',' header) (record { timestamp_str = []; v1_hex = [] })

-- What is hashed: the decimal timestamp, a dot, the payload.
abbrev pub signed_text : ℤ → Text → Text
signed_text timestamp payload = print_int timestamp ++ b'.' ∷ payload

-- `if nowUnix == 0 { nowUnix = time.Now().Unix() }`
abbrev pub resolve_now : ℤ → ℤ → ℤ
resolve_now now_unix clock = if eqb_ℤ now_unix (pos 0) then clock else now_unix

module _ (hmac : Text → Text → List ℕ) where
  unfoldable pub generate_signature : Text → Text → ℤ → Text
  generate_signature payload secret timestamp =
      codes "t="
      ++ print_int timestamp
      ++ (codes ",v1=" ++ hex_encode (hmac secret (signed_text timestamp payload)))

  -- The checks once the timestamp is read.
  unfoldable pub check_timestamp : Text → Text → Text → ℤ → ℤ → ℤ → Option SignatureError
  check_timestamp raw_body v1_hex secret tolerance now ts =
      if ltb_ℤ tolerance (sub64 now ts)
      then some (expired_timestamp (sub64 now ts) tolerance)
      else if ltb_ℤ (pos 10) (sub64 ts now)
      then some (clock_drift (sub64 ts now))
      else if text_eq (hex_encode (hmac secret (signed_text ts raw_body))) (map to_lower v1_hex)
      then none
      else some signature_mismatch

  abbrev pub check_parsed : Text → Text → Text → ℤ → ℤ → Option ℤ → Option SignatureError
  check_parsed raw_body v1_hex secret tolerance now none = some invalid_header_format
  check_parsed raw_body v1_hex secret tolerance now (some ts) =
      check_timestamp raw_body v1_hex secret tolerance now ts

  -- `none` is the pair `(true, nil)`, and `some e` the pair `(false, e)`. `clock` is the time that
  -- `time.Now().Unix()` gives, which is read where the caller passes 0.
  unfoldable pub verify_signature : Text → Text → Text → ℤ → ℤ → ℤ → Option SignatureError
  unfolding check_timestamp
  verify_signature raw_body header secret tolerance now_unix clock =
      if text_eq header []
      then some missing_signature
      else let f = parse_header header in
        if text_eq f.timestamp_str [] || text_eq f.v1_hex []
        then some invalid_header_format
        else check_parsed raw_body f.v1_hex secret tolerance (resolve_now now_unix clock)
            (parse_int f.timestamp_str)
