-- ===== src/Examples/Signatures.antt =====
-- The theorems on signatures and keys.
use aegis_pulse.Base.{
  ℕ, ◌+◌, ◌≡◌, ◌⊎◌, refl, true, false, none, some, List, [], ◌∷◌, String, ℤ, pos, two63, arith,
  ◌-ℤ◌, Text, codes, Dict, lookup, hex_encode, text_eq, split, strip_prefix, trim_space, is_space,
  parse_int, is_digit, sub64, wrap64, to_lower,
}
use aegis_pulse.Crypto.Signature.{generate_signature, verify_signature, parse_header, scan_parts}
use aegis_pulse.Crypto.Signature.Freshness.{IsAuthentic, IsFresh, verify_signature_sound}
use aegis_pulse.Crypto.Signature.RoundTrip.{verify-generate_signature}
use aegis_pulse.Storage.Redis.{RedisServer}
use aegis_pulse.Storage.Keys.{
  ApiKeyRecord, Database, Repo, refused, key_frozen, matches, get_api_key, freeze_api_key,
}
use aegis_pulse.Storage.Keys.Freeze.{looks_up, freezes, step, run, freeze-refused_forever}

abbrev pub byte_hmac : Text → Text → List ℕ
byte_hmac secret text = 171 ∷ []

abbrev header : Text
header = codes "t=1000,v1=AB"

header_is_accepted :
    verify_signature byte_hmac (codes "{}") header (codes "k") (pos 300) (pos 1005) (pos 0) ≡ none
unfolding verify_signature text_eq parse_header scan_parts split strip_prefix trim_space is_space
    parse_int is_digit sub64 wrap64 ◌-ℤ◌ hex_encode to_lower
header_is_accepted = refl

verify_signature_sound_example :
    (ts : ℤ) × IsAuthentic byte_hmac (codes "{}") header (codes "k") ts
    × (IsFresh (pos 300) (pos 1005) ts ⊎ (pos 1005 -ℤ ts ≡ pos two63))
verify_signature_sound_example =
    verify_signature_sound byte_hmac (codes "{}") header (codes "k") (pos 300) (pos 1005) (pos 0)
      (ground arith) (refl, omega arith) header_is_accepted

verify-generate_signature_example :
    verify_signature byte_hmac
      (codes "{}")
      (generate_signature byte_hmac (codes "{}") (codes "k") (pos 1000))
      (codes "k")
      (pos 300)
      (pos 1005)
      (pos 0)
    ≡ none
unfolding ◌-ℤ◌
verify-generate_signature_example =
    verify-generate_signature byte_hmac (codes "{}") (codes "k") (pos 1000) (pos 300) (pos 1005)
      (pos 0) (ground arith) (ground arith) (ground arith) (λ e. cc) (omega arith, omega arith)

abbrev pub server : RedisServer (Dict String)
server = record { set = λ s k v ttl. (s, true); get = λ s k. none }

-- A database that knows no key.
abbrev pub database : Database ℕ ℕ
database = record {
  select_key = λ d h. none;
  select_keys = λ d. none;
  select_webhooks = λ d. none;
  update_frozen = λ d k h. (d, some 0);
  insert_audit = λ d rec. (d + 1, true);
  upsert_billing = λ d k m u c. (d, true);
}

abbrev pub hash : String → String
hash k = k

abbrev pub key_record : String → ApiKeyRecord
key_record id = record {
  id = id;
  key_hash = "h";
  encrypted_key = "";
  tier = "Pro";
  is_active = true;
  rate_frozen = false;
  created_at = pos 0;
  updated_at = pos 0;
}

abbrev pub repo : Repo (Dict String) ℕ
repo = record {
  pool = some 0;
  redis = none;
  mem_keys = ("other", key_record "k2") ∷ ("key", key_record "k1") ∷ [];
  webhooks = [];
}

freeze-refused_forever_example :
    ((freeze_api_key server database hash repo "key" (pos 5)).1 ≡ none)
    × ((get_api_key server database hash
          (run server database hash
            (step server database hash repo (freezes "key" (pos 5)))
            (looks_up "other" ∷ freezes "other" (pos 6) ∷ []))
          "key").1
        ≡ refused key_frozen)
unfolding lookup matches
freeze-refused_forever_example =
    freeze-refused_forever server database hash repo "key" (pos 5) (key_record "k1")
      (looks_up "other" ∷ freezes "other" (pos 6) ∷ []) (λ e. cc, (λ e. refl, tt)) refl
