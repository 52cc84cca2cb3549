-- ===== src/Storage/Keys/Defs.antt =====
-- PostgresRepo: the definitions. PostgreSQL, Redis and SHA-256 are parameters.
use aegis_pulse.Base.{
  ℕ, Bool, true, false, ◌||◌, Option, none, some, List, [], ◌∷◌, String, if◌then◌else◌, str_eq, ltb,
  ℤ, Dict, lookup, insert, Text,
}
use aegis_pulse.Clock.{Time}
use aegis_pulse.Storage.Redis.{RedisServer, RedisClient, freeze_key, is_key_frozen}

pub data KeyError : Type 0 where
  key_not_found key_frozen key_inactive : KeyError

pub record ApiKeyRecord : Type 0 where
  pub id : String
  pub key_hash : String
  pub encrypted_key : String
  pub tier : String
  pub is_active : Bool
  pub rate_frozen : Bool
  pub created_at : Time
  pub updated_at : Time

pub record WebhookRecord : Type 0 where
  pub id : String
  pub api_key_id : String
  pub url : String
  pub sink_type : String
  pub encrypted_secret : String
  pub is_active : Bool
  pub created_at : Time

pub record AuditEventRecord : Type 0 where
  pub id : String
  pub event_type : String
  pub payload : Text
  pub signature : Text
  pub created_at : Time

-- The statements that the repository sends. `select_key` is `none` on an error and on no row;
-- `update_frozen` gives the rows it changed, or `none` on an error.
pub record Database (D Float64 : Type 0) : Type 0 where
  pub select_key : D → String → Option ApiKeyRecord
  pub select_keys : D → Option (List ApiKeyRecord)
  pub select_webhooks : D → Option (List WebhookRecord)
  pub update_frozen : D → String → String → D × Option ℕ
  pub insert_audit : D → AuditEventRecord → D × Bool
  pub upsert_billing : D → String → String → ℤ → Float64 → D × Bool

-- `pool` and `redis` are nil where the connection failed or was not asked for.
pub record Repo (S D : Type 0) : Type 0 where
  pub pool : Option D
  pub redis : Option (RedisClient S)
  pub mem_keys : Dict ApiKeyRecord
  pub webhooks : List WebhookRecord

pub data Found : Type 0 where
  found : ApiKeyRecord → Found
  refused : KeyError → Found

-- The tests on a record, from memory or from the database.
abbrev pub admit : ApiKeyRecord → Found
admit rec =
    if rec.rate_frozen
    then refused key_frozen
    else if rec.is_active
    then found rec
    else refused key_inactive

unfoldable pub matches : String → String → String → ApiKeyRecord → Bool
matches key target h rec = str_eq h target || str_eq rec.id key || str_eq rec.encrypted_key key

abbrev pub frozen_record : Time → ApiKeyRecord → ApiKeyRecord
frozen_record now rec = record rec { rate_frozen = true; is_active = false; updated_at = now }

-- The loop over `memKeys`, which ends at the first record that matches.
unfoldable pub freeze_first :
    String → String → Time → Dict ApiKeyRecord → Dict ApiKeyRecord × Option ApiKeyRecord
freeze_first key target now [] = ([], none)
freeze_first key target now ((h, rec) ∷ m) =
    let (m', hit) = freeze_first key target now m in
    if matches key target h rec
    then ((h, frozen_record now rec) ∷ m, some rec)
    else ((h, rec) ∷ m', hit)

-- `syncFromDB`: every row replaces the record of its hash; the subscriptions are replaced if there
-- are any.
unfoldable pub load_keys : List ApiKeyRecord → Dict ApiKeyRecord → Dict ApiKeyRecord
load_keys [] m = m
load_keys (rec ∷ rows) m = load_keys rows (insert rec.key_hash rec m)

abbrev load_webhooks : Option (List WebhookRecord) → List WebhookRecord → List WebhookRecord
load_webhooks none old = old
load_webhooks (some []) old = old
load_webhooks (some (w ∷ ws)) old = w ∷ ws

module _ {S D Float64 : Type 0} (server : RedisServer S) (db : Database D Float64)
    (hash_key : String → String) where
  abbrev pub frozen_in_redis : Option (RedisClient S) → String → Bool
  frozen_in_redis none k = false
  frozen_in_redis (some r) k = is_key_frozen server r k || is_key_frozen server r (hash_key k)

  abbrev pub from_row : Repo S D → String → Option ApiKeyRecord → Repo S D × Found
  from_row r h none = (r, refused key_not_found)
  from_row r h (some rec) = (record r { mem_keys = insert h rec r.mem_keys }, admit rec)

  abbrev pub from_pool : Repo S D → String → Option D → Repo S D × Found
  from_pool r h none = (r, refused key_not_found)
  from_pool r h (some d) = from_row r h (db.select_key d h)

  abbrev pub from_memory : Repo S D → String → Option ApiKeyRecord → Repo S D × Found
  from_memory r h none = from_pool r h r.pool
  from_memory r h (some rec) = (r, admit rec)

  unfoldable pub get_api_key : Repo S D → String → Repo S D × Found
  get_api_key r raw_key =
      let h = hash_key raw_key in
      if frozen_in_redis r.redis raw_key
      then (r, refused key_frozen)
      else from_memory r h (lookup h r.mem_keys)

  -- Both forms of a key, in this order.
  abbrev freeze_both : Option (RedisClient S) → String → String → Option (RedisClient S)
  freeze_both none a b = none
  freeze_both (some r) a b = some (freeze_key server (freeze_key server r a).0 b).0

  abbrev freeze_record : Option (RedisClient S) → Option ApiKeyRecord → Option (RedisClient S)
  freeze_record r none = r
  freeze_record r (some rec) = freeze_both r rec.id rec.key_hash

  abbrev is_hit : Option ApiKeyRecord → Bool
  is_hit none = false
  is_hit (some rec) = true

  abbrev changed_rows : Option ℕ → Bool
  changed_rows none = false
  changed_rows (some n) = ltb 0 n

  abbrev update_pool : Option D → String → String → Option D × Bool
  update_pool none key target = (none, false)
  update_pool (some d) key target =
      let (d', rows) = db.update_frozen d key target in (some d', changed_rows rows)

  -- `none` is a nil error.
  unfoldable pub freeze_api_key : Repo S D → String → Time → Repo S D × Option KeyError
  unfolding freeze_first
  freeze_api_key r key now =
      let target = hash_key key in
      let redis = freeze_both r.redis key target in
      let (keys, hit) = freeze_first key target now r.mem_keys in
      let (pool, rows) = update_pool r.pool key target in
      (
        record r { redis = freeze_record redis hit; mem_keys = keys; pool = pool },
        if is_hit hit || rows then none else some key_not_found,
      )

  abbrev pub sync_rows : Repo S D → D → Option (List ApiKeyRecord) → Repo S D × Bool
  sync_rows r d none = (r, false)
  sync_rows r d (some rows) = (
    record r {
      mem_keys = load_keys rows r.mem_keys;
      webhooks = load_webhooks (db.select_webhooks d) r.webhooks;
    },
    true,
  )

  abbrev sync_pool : Repo S D → Option D → Repo S D × Bool
  sync_pool r none = (r, true)
  sync_pool r (some d) = sync_rows r d (db.select_keys d)

  unfoldable pub sync_from_db : Repo S D → Repo S D × Bool
  unfolding load_keys
  sync_from_db r = sync_pool r r.pool

  abbrev audit_pool : Option D → AuditEventRecord → Option D
  audit_pool none rec = none
  audit_pool (some d) rec = some (db.insert_audit d rec).0

  -- The error is nil on every path; the row's id is `audit_` and the clock.
  unfoldable pub create_audit_log : Repo S D → String → String → Text → Text → Time → Repo S D
  create_audit_log r id event_type payload signature now = record r {
    pool = audit_pool r.pool (record {
      id = id;
      event_type = event_type;
      payload = payload;
      signature = signature;
      created_at = now;
    });
  }

  abbrev bill_pool : Option D → String → String → ℤ → Float64 → Option D × Bool
  bill_pool none api_key month units cost = (none, true)
  bill_pool (some d) api_key month units cost =
      let (d', done) = db.upsert_billing d api_key month units cost in (some d', done)

  unfoldable pub record_billing_overage : Repo S D → String → String → ℤ → Float64 → Repo S D × Bool
  record_billing_overage r api_key month units cost =
      let (pool, done) = bill_pool r.pool api_key month units cost in
      (record r { pool = pool }, done)

abbrev pub get_webhooks : {S D : Type 0} → Repo S D → List WebhookRecord
get_webhooks r = r.webhooks
