-- ===== src/Examples/Seeds.antt =====
-- The seeded keys' theorem, for a start with a database that has one other key.
use aegis_pulse.Base.{
  ℕ, ◌≡◌, refl, none, some, [], ◌∷◌, pos, codes, split, strip_prefix, trim_space, parse_int,
  is_space, is_digit,
}
use aegis_pulse.Storage.Redis.{scan_info, split_lines}
use aegis_pulse.Storage.Keys.{Database, found, get_api_key}
use aegis_pulse.Storage.Keys.Seed.{
  Seed, seeded_record, new_postgres_repo, new_postgres_repo-lets_in,
}
use aegis_pulse.Examples.Signatures.{server, database, hash, key_record}

abbrev one_key : Database ℕ ℕ
one_key = record database { select_keys = λ d. some (key_record "k1" ∷ []) }

abbrev compromised : Seed
compromised = record {
  id = "key_compromised_99";
  raw_key = "aegis_live_compromised_key_9999";
  tier = "enterprise";
}

new_postgres_repo-lets_in_example :
    (get_api_key server one_key hash
      (new_postgres_repo server one_key hash
        (λ k. "sealed")
        (λ d. d)
        (λ dsn. some 7)
        "postgres://db"
        (pos 9)
        none)
      "aegis_live_compromised_key_9999").1
    ≡ found (seeded_record hash (λ k. "sealed") (pos 9) compromised)
new_postgres_repo-lets_in_example =
    new_postgres_repo-lets_in server one_key hash (λ k. "sealed") (λ d. d) (λ dsn. some 7)
      "postgres://db" (pos 9) none
      (record { id = "key_free_01"; raw_key = "aegis_live_free_key_1001"; tier = "free" }
        ∷ record { id = "key_pro_01"; raw_key = "aegis_live_pro_key_2002"; tier = "pro" }
        ∷ record {
          id = "key_enterprise_01";
          raw_key = "aegis_live_enterprise_key_3003";
          tier = "enterprise";
        }
        ∷ [])
      compromised [] refl tt (refl, tt) refl

-- The memory that a reply names.
reads_used_memory :
    scan_info (split_lines (codes "# Memory\r\nused_memory:1048576\r\nused_memory_human:1.00M\r\n"))
    ≡ some (pos 1048576)
unfolding split_lines split strip_prefix trim_space parse_int is_space is_digit
reads_used_memory = refl
