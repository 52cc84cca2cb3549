-- ===== src/Storage/Keys/Freeze.antt =====
-- The kill-switch: a key that is frozen is refused from then on.
use aegis_pulse.Base.{
  ◌≡◌, refl, true, false, Option, none, some, List, [], ◌∷◌, String, str_eq, eq_iff, Dict, lookup,
  insert, lookup-insert, lookup-insert_self, arith, Bool-cases, Option-cases, inl, inr,
}
use aegis_pulse.Clock.{Time}
use aegis_pulse.Storage.Redis.{RedisServer}
use aegis_pulse.Storage.Keys.Defs.{
  ApiKeyRecord, Repo, Database, Found, found, refused, key_frozen, admit, matches, frozen_record,
  freeze_first, get_api_key, frozen_in_redis, from_row, from_pool, key_not_found, freeze_api_key,
}

-- Every record that the freeze of `key` can meet is the one under the hash of `key`.
abbrev pub OnlyAt : String → String → Dict ApiKeyRecord → Type 0
OnlyAt key target [] = Unit
OnlyAt key target ((h, rec) ∷ m) =
    (matches key target h rec ≡ true → str_eq h target ≡ true) × OnlyAt key target m

-- The key's record is frozen in memory.
abbrev pub FrozenAt : String → Dict ApiKeyRecord → Type 0
FrozenAt h m = (rec : ApiKeyRecord) × (lookup h m ≡ some rec) × (rec.rate_frozen ≡ true)

freeze_first-hit :
    (key target : String) (now : Time) (m : Dict ApiKeyRecord) (rec : ApiKeyRecord)
    → OnlyAt key target m
    → lookup target m ≡ some rec
    → (lookup target (freeze_first key target now m).0 ≡ some (frozen_record now rec))
      × ((freeze_first key target now m).1 ≡ some rec)
unfolding freeze_first lookup matches
freeze_first-hit key target now [] rec only e = cc
freeze_first-hit key target now ((h, r) ∷ m) rec only e = elim (Bool-cases (str_eq h target)) [
  | inl here ↦ ground (arith, here, e)
  | inr past ↦ ground (arith, past, e, freeze_first-hit key target now m rec only.1)
]

-- The freeze of any key leaves a frozen record frozen.
FrozenAt-freeze_first :
    (key target : String) (now : Time) (h : String) (m : Dict ApiKeyRecord)
    → FrozenAt h m
    → FrozenAt h (freeze_first key target now m).0
unfolding freeze_first lookup
FrozenAt-freeze_first key target now h [] (rec, e, fr) = cc
FrozenAt-freeze_first key target now h ((j, r) ∷ m) (rec, e, fr) =
    elim (Bool-cases (matches key target j r)) [
      | inl hit ↦ rw hit (elim (Bool-cases (str_eq j h)) [
        | inl here ↦ (frozen_record now r, ground (arith, here), refl)
        | inr past ↦ (rec, ground (arith, past, e), fr)
      ])
      | inr miss ↦ rw miss (elim (Bool-cases (str_eq j h)) [
        | inl here ↦ (rec, ground (arith, here, e), fr)
        | inr past ↦
            let (r', e', f') =
              FrozenAt-freeze_first key target now h m (rec, ground (arith, past, e), fr) in
            (r', ground (arith, past, e'), f')
      ])
    ]

FrozenAt-insert :
    (h j : String) (r : ApiKeyRecord) (m : Dict ApiKeyRecord)
    → lookup j m ≡ none
    → FrozenAt h m
    → FrozenAt h (insert j r m)
FrozenAt-insert h j r m absent (rec, e, fr) =
    (rec, rw lookup-insert (ground (arith, eq_iff j h, e, absent)), fr)

-- What a client does to the repository: a lookup or a freeze, of any key.
pub data Op : Type 0 where
  looks_up : String → Op
  freezes : String → Time → Op

module _ {S D Float64 : Type 0} (server : RedisServer S) (db : Database D Float64)
    (hash_key : String → String) where
  unfoldable pub step : Repo S D → Op → Repo S D
  unfolding get_api_key freeze_api_key
  step r (looks_up k) = (get_api_key server db hash_key r k).0
  step r (freezes k now) = (freeze_api_key server db hash_key r k now).0

  unfoldable pub run : Repo S D → List Op → Repo S D
  run r [] = r
  run r (op ∷ ops) = run (step r op) ops

  -- The four ways through a lookup.
  row_cases :
      (r : Repo S D) (h : String) (P : Repo S D × Found → Type 0)
      → P (r, refused key_not_found)
      → ((rec : ApiKeyRecord) → P (record r { mem_keys = insert h rec r.mem_keys }, admit rec))
      → (o : Option ApiKeyRecord) → P (from_row server db hash_key r h o)
  row_cases r h P unknown row none = unknown
  row_cases r h P unknown row (some rec) = row rec

  pool_cases :
      (r : Repo S D) (h : String) (P : Repo S D × Found → Type 0)
      → P (r, refused key_not_found)
      → ((rec : ApiKeyRecord) → P (record r { mem_keys = insert h rec r.mem_keys }, admit rec))
      → (o : Option D) → P (from_pool server db hash_key r h o)
  pool_cases r h P unknown row none = unknown
  pool_cases r h P unknown row (some d) = row_cases r h P unknown row (db.select_key d h)

  get_cases :
      (r : Repo S D) (k : String) (P : Repo S D × Found → Type 0)
      → P (r, refused key_frozen)
      → ((rec : ApiKeyRecord) → lookup (hash_key k) r.mem_keys ≡ some rec → P (r, admit rec))
      → (lookup (hash_key k) r.mem_keys ≡ none → P (r, refused key_not_found))
      → ((rec : ApiKeyRecord)
          → lookup (hash_key k) r.mem_keys ≡ none
          → P (record r { mem_keys = insert (hash_key k) rec r.mem_keys }, admit rec))
      → P (get_api_key server db hash_key r k)
  unfolding get_api_key
  get_cases r k P frozen known unknown row =
      elim (Bool-cases (frozen_in_redis server db hash_key r.redis k)) [
        | inl stop ↦ rw stop frozen
        | inr go ↦ rw go (elim (Option-cases (lookup (hash_key k) r.mem_keys)) [
          | inr (rec, e) ↦ rw e (known rec e)
          | inl e ↦ rw e (pool_cases r (hash_key k) P (unknown e) (λ rec. row rec e) r.pool)
        ])
      ]

  get_api_key-FrozenAt :
      (r : Repo S D) (k h : String)
      → FrozenAt h r.mem_keys
      → FrozenAt h (get_api_key server db hash_key r k).0.mem_keys
  unfolding get_api_key
  get_api_key-FrozenAt r k h fr =
      get_cases r k (λ t. FrozenAt h t.0.mem_keys) fr (λ rec e. fr) (λ e. fr)
        (λ rec e. FrozenAt-insert h (hash_key k) rec r.mem_keys e fr)

  pub frozen_is_refused :
      (r : Repo S D) (k : String)
      → FrozenAt (hash_key k) r.mem_keys
      → (get_api_key server db hash_key r k).1 ≡ refused key_frozen
  unfolding get_api_key
  frozen_is_refused r k (rec, e, fr) = ground (arith, e, fr)

  pub run-FrozenAt :
      (h : String) (ops : List Op) (r : Repo S D)
      → FrozenAt h r.mem_keys
      → FrozenAt h (run r ops).mem_keys
  unfolding run step
  run-FrozenAt h [] r fr = fr
  run-FrozenAt h (looks_up k ∷ ops) r fr = run-FrozenAt h ops _ (get_api_key-FrozenAt r k h fr)
  run-FrozenAt h (freezes k now ∷ ops) r fr =
      run-FrozenAt h ops _
        (unfold freeze_api_key in FrozenAt-freeze_first k (hash_key k) now h r.mem_keys fr)

  pub freeze_api_key-FrozenAt :
      (r : Repo S D) (key : String) (now : Time) (rec : ApiKeyRecord)
      → OnlyAt key (hash_key key) r.mem_keys
      → lookup (hash_key key) r.mem_keys ≡ some rec
      → FrozenAt (hash_key key) (freeze_api_key server db hash_key r key now).0.mem_keys
  unfolding freeze_api_key
  freeze_api_key-FrozenAt r key now rec only e = (
    frozen_record now rec,
    (freeze_first-hit key (hash_key key) now r.mem_keys rec only e).0,
    refl,
  )

  -- A key whose record is in memory, and is the only one that its freeze can meet, is refused as
  -- frozen after the freeze and after any lookups and freezes that follow, of any keys, whatever
  -- Redis and PostgreSQL answer. The freeze itself reports success.
  pub freeze-refused_forever :
      (r : Repo S D) (key : String) (now : Time) (rec : ApiKeyRecord) (ops : List Op)
      → OnlyAt key (hash_key key) r.mem_keys
      → lookup (hash_key key) r.mem_keys ≡ some rec
      → ((freeze_api_key server db hash_key r key now).1 ≡ none)
        × ((get_api_key server db hash_key (run (step r (freezes key now)) ops) key).1
            ≡ refused key_frozen)
  unfolding step
  freeze-refused_forever r key now rec ops only e =
      let (kept, hit) = freeze_first-hit key (hash_key key) now r.mem_keys rec only e in
      (
        unfold freeze_api_key in rw hit,
        frozen_is_refused _ key (
            run-FrozenAt (hash_key key) ops _
              (unfold freeze_api_key in (frozen_record now rec, kept, refl))),
      )

  -- A key that is let through has a record that is active and not frozen, read from memory or from
  -- the database, and the repository keeps that record in memory under the hash of the key.
  pub get_api_key-found :
      (r : Repo S D) (key : String) (rec : ApiKeyRecord)
      → (get_api_key server db hash_key r key).1 ≡ found rec
      → (rec.is_active ≡ true)
        × (rec.rate_frozen ≡ false)
        × (lookup (hash_key key) (get_api_key server db hash_key r key).0.mem_keys ≡ some rec)
  get_api_key-found r key rec =
      get_cases r key
        (λ t.
          t.1 ≡ found rec
          → (rec.is_active ≡ true)
            × (rec.rate_frozen ≡ false)
            × (lookup (hash_key key) t.0.mem_keys ≡ some rec))
        (λ h. cc) (λ rec' e h. ground (arith, e)) (λ e h. cc)
        (λ rec' e h. ground (arith, lookup-insert_self (hash_key key) rec' r.mem_keys))
