-- ===== src/Storage/Keys/Seed.antt =====
-- NewPostgresRepo and seedDefaultKeys of internal/storage/postgres.go, and who is let in from the start.
-- Connecting, which includes the ping, the migrations and the encryption are parameters.
use Prim.Native.String.{◌++◌ as concat}
use aegis_pulse.Base.{
  ◌≡◌, refl, ◌∙◌, ap, true, false, Option, none, some, List, [], ◌∷◌, ◌++◌, String, if◌then◌else◌,
  str_eq, Dict, lookup, insert, lookup-insert, lookup-insert_self,
}
use aegis_pulse.Clock.{Time}
use aegis_pulse.Storage.Redis.{RedisServer, RedisClient}
use aegis_pulse.Storage.Keys.Defs.{
  ApiKeyRecord, WebhookRecord, Repo, Database, found, load_keys, frozen_in_redis, get_api_key,
  sync_from_db, sync_rows,
}

pub record Seed : Type 0 where
  pub id : String
  pub raw_key : String
  pub tier : String

abbrev pub default_keys : List Seed
default_keys =
    record { id = "key_free_01"; raw_key = "aegis_live_free_key_1001"; tier = "free" }
    ∷ record { id = "key_pro_01"; raw_key = "aegis_live_pro_key_2002"; tier = "pro" }
    ∷ record {
      id = "key_enterprise_01";
      raw_key = "aegis_live_enterprise_key_3003";
      tier = "enterprise";
    }
    ∷ record {
      id = "key_compromised_99";
      raw_key = "aegis_live_compromised_key_9999";
      tier = "enterprise";
    }
    ∷ []

abbrev subscription : Time → String → String → String → String → WebhookRecord
subscription now id api_key_id sink_type secret = record {
  id = id;
  api_key_id = api_key_id;
  url = concat "http://webhook-receiver:8083/webhook/" sink_type;
  sink_type = sink_type;
  encrypted_secret = secret;
  is_active = true;
  created_at = now;
}

abbrev pub default_webhooks : Time → List WebhookRecord
default_webhooks now =
    subscription now "sub_gen_01" "key_pro_01" "generic" "secret_generic_sig"
    ∷ subscription now "sub_disc_01" "key_enterprise_01" "discord" "secret_discord_sig"
    ∷ subscription now "sub_slack_01" "key_enterprise_01" "slack" "secret_slack_sig"
    ∷ []

module _ (hash_key : String → String) (encrypt_key : String → String) (now : Time) where
  abbrev pub seeded_record : Seed → ApiKeyRecord
  seeded_record k = record {
    id = k.id;
    key_hash = hash_key k.raw_key;
    encrypted_key = encrypt_key k.raw_key;
    tier = k.tier;
    is_active = true;
    rate_frozen = false;
    created_at = now;
    updated_at = now;
  }

  -- The loop over the keys.
  unfoldable pub seed_keys : List Seed → Dict ApiKeyRecord → Dict ApiKeyRecord
  seed_keys [] m = m
  seed_keys (k ∷ ks) m = seed_keys ks (insert (hash_key k.raw_key) (seeded_record k) m)

  unfoldable pub seed_default_keys : {S D : Type 0} → Repo S D → Repo S D
  unfolding seed_keys
  seed_default_keys r = record r {
    mem_keys = seed_keys default_keys r.mem_keys;
    webhooks = default_webhooks now;
  }

  -- No key of the list has the hash.
  abbrev pub AreOther : String → List Seed → Type 0
  AreOther h [] = Unit
  AreOther h (k ∷ ks) = (str_eq (hash_key k.raw_key) h ≡ false) × AreOther h ks

  seed_keys-other :
      (h : String) (ks : List Seed) (m : Dict ApiKeyRecord)
      → AreOther h ks
      → lookup h (seed_keys ks m) ≡ lookup h m
  unfolding seed_keys
  seed_keys-other h [] m other = refl
  seed_keys-other h (k ∷ ks) m (here, rest) =
      seed_keys-other h ks _ rest
      ∙ rw (lookup-insert (hash_key k.raw_key) h (seeded_record k) m, here) refl

  lookup-seed_keys :
      (before : List Seed) (k : Seed) (later : List Seed) (m : Dict ApiKeyRecord)
      → AreOther (hash_key k.raw_key) later
      → lookup (hash_key k.raw_key) (seed_keys (before ++ k ∷ later) m) ≡ some (seeded_record k)
  unfolding seed_keys
  lookup-seed_keys [] k later m other =
      seed_keys-other (hash_key k.raw_key) later _ other
      ∙ lookup-insert_self (hash_key k.raw_key) (seeded_record k) m
  lookup-seed_keys (j ∷ before) k later m other = lookup-seed_keys before k later _ other

-- The rows have another hash.
abbrev pub RowsOther : String → List ApiKeyRecord → Type 0
RowsOther h [] = Unit
RowsOther h (rec ∷ rows) = (str_eq rec.key_hash h ≡ false) × RowsOther h rows

load_keys-other :
    (h : String) (rows : List ApiKeyRecord) (m : Dict ApiKeyRecord)
    → RowsOther h rows
    → lookup h (load_keys rows m) ≡ lookup h m
unfolding load_keys
load_keys-other h [] m other = refl
load_keys-other h (rec ∷ rows) m (here, rest) =
    load_keys-other h rows _ rest ∙ rw (lookup-insert rec.key_hash h rec m, here) refl

module _ {S D Float64 : Type 0} (server : RedisServer S) (db : Database D Float64)
    (hash_key : String → String) (encrypt_key : String → String) (migrate : D → D) where
  abbrev connected : Option D → Repo S D → Repo S D
  connected none r = r
  connected (some d) r = (sync_from_db server db hash_key (record r { pool = some (migrate d) })).0

  -- `connect` gives the pool that answers the ping, if there is one.
  unfoldable pub new_postgres_repo :
      (String → Option D) → String → Time → Option (RedisClient S) → Repo S D
  unfolding sync_from_db seed_default_keys
  new_postgres_repo connect dsn now redis =
      let empty : Repo S D = record { pool = none; redis = redis; mem_keys = []; webhooks = [] } in
      let seeded = seed_default_keys hash_key encrypt_key now empty in
      connected (if str_eq dsn "" then none else connect dsn) seeded

  abbrev pub AnyRowsOther : String → Option (List ApiKeyRecord) → Type 0
  AnyRowsOther h none = Unit
  AnyRowsOther h (some rows) = RowsOther h rows

  -- The rows that the start reads, if it reads any, have another hash.
  abbrev pub StartsOther : String → Option D → Type 0
  StartsOther h none = Unit
  StartsOther h (some d) = AnyRowsOther h (db.select_keys (migrate d))

  rows_kept :
      (h : String) (r : Repo S D) (d : D) (rows : Option (List ApiKeyRecord))
      → AnyRowsOther h rows
      → (lookup h (sync_rows server db hash_key r d rows).0.mem_keys ≡ lookup h r.mem_keys)
        × ((sync_rows server db hash_key r d rows).0.redis ≡ r.redis)
  rows_kept h r d none other = (refl, refl)
  rows_kept h r d (some rows) other = (load_keys-other h rows r.mem_keys other, refl)

  connected-kept :
      (h : String) (o : Option D) (r : Repo S D)
      → StartsOther h o
      → (lookup h (connected o r).mem_keys ≡ lookup h r.mem_keys)
        × ((connected o r).redis ≡ r.redis)
  unfolding sync_from_db
  connected-kept h none r other = (refl, refl)
  connected-kept h (some d) r other =
      rows_kept h (record r { pool = some (migrate d) }) (migrate d) (db.select_keys (migrate d))
        other

  admitted :
      (r : Repo S D) (raw_key : String) (rec : ApiKeyRecord)
      → frozen_in_redis server db hash_key r.redis raw_key ≡ false
      → lookup (hash_key raw_key) r.mem_keys ≡ some rec
      → rec.rate_frozen ≡ false
      → rec.is_active ≡ true
      → (get_api_key server db hash_key r raw_key).1 ≡ found rec
  unfolding get_api_key
  admitted r raw_key rec free there thawed active = rw (free, there, thawed, active) refl

  -- At every start, with a database or without: a default key whose hash is not that of a later default
  -- key, nor of a row that the start reads, and that Redis does not hold as frozen, is let through with
  -- its seeded record.
  pub new_postgres_repo-lets_in :
      (connect : String → Option D) (dsn : String) (now : Time) (redis : Option (RedisClient S))
      (before : List Seed) (k : Seed) (later : List Seed)
      → default_keys ≡ before ++ k ∷ later
      → AreOther hash_key encrypt_key now (hash_key k.raw_key) later
      → StartsOther (hash_key k.raw_key) (if str_eq dsn "" then none else connect dsn)
      → frozen_in_redis server db hash_key redis k.raw_key ≡ false
      → (get_api_key server db hash_key (new_postgres_repo connect dsn now redis) k.raw_key).1
        ≡ found (seeded_record hash_key encrypt_key now k)
  unfolding new_postgres_repo seed_default_keys
  new_postgres_repo-lets_in connect dsn now redis before k later whole last starts free =
      let h = hash_key k.raw_key in
      let empty : Repo S D = record { pool = none; redis = redis; mem_keys = []; webhooks = [] } in
      let seeded = seed_default_keys hash_key encrypt_key now empty in
      let kept = connected-kept h (if str_eq dsn "" then none else connect dsn) seeded starts in
      let there : lookup h seeded.mem_keys ≡ some (seeded_record hash_key encrypt_key now k) =
        ap (λ ks. lookup h (seed_keys hash_key encrypt_key now ks [])) whole
        ∙ lookup-seed_keys hash_key encrypt_key now before k later [] last in
      admitted (new_postgres_repo connect dsn now redis) k.raw_key
        (seeded_record hash_key encrypt_key now k) (rw kept.1 free) (kept.0 ∙ there) refl refl
