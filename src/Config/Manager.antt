-- ===== src/Config/Manager.antt =====
-- ConfigManager of config/config.go. The copies of `cloneConfig` are what makes a configuration a
-- value here. The environment is a function, and the file what reading and parsing it gives. A method
-- that notifies returns the listeners it starts, each with its configuration.
use aegis_pulse.Base.{
  ℕ, ◌+◌, ◌*◌, Bool, ◌&&◌, Option, none, some, List, [], ◌∷◌, ◌++◌, map, String, if◌then◌else◌,
  str_eq, leb_ℤ, ltb_ℤ, ℤ, pos, lookup, codes, parse_int, print_int, Text, lower,
}
use aegis_pulse.Clock.{Time, millisecond, sub_time}
use aegis_pulse.Config.Types.{Config, PostgresConfig, TierConfig, JitterConfig, default_config}

pub record ConfigManager (Float64 : Type 0) : Type 0 where
  pub file_path : String
  pub cfg : Config Float64
  pub listeners : List ℕ

-- `os.Getenv`: the empty text is a variable that is not set.
abbrev pub Env : Type 0
Env = String → String

abbrev or_keep : String → String → String
or_keep val old = if str_eq val "" then old else val

abbrev port_or_keep : Option ℤ → ℤ → ℤ
port_or_keep none old = old
port_or_keep (some p) old = p

-- The new jitter settings.
unfoldable pub jitter_after : Bool → ℤ → ℤ → ℤ → JitterConfig → JitterConfig
jitter_after enabled percentage min_ms max_ms j = record {
  enabled = enabled;
  percentage =
      if leb_ℤ (pos 0) percentage && leb_ℤ percentage (pos 100) then percentage else j.percentage;
  min_delay_ms = if ltb_ℤ (pos 0) min_ms then min_ms else j.min_delay_ms;
  max_delay_ms = if leb_ℤ min_ms max_ms then max_ms else j.max_delay_ms;
}

-- A file event that is a write, a creation or a rename, with the time of the first and of the
-- second reading of the clock and what the file holds then; or any other event; or the end.
pub data WatchEvent (Float64 : Type 0) : Type 0 where
  changed : Time → Time → Option (Config Float64) → WatchEvent Float64
  ignored : WatchEvent Float64
  done : WatchEvent Float64

module _ {Float64 : Type 0} where
  unfoldable pub apply_env_overrides : Env → Config Float64 → Config Float64
  apply_env_overrides env cfg = record cfg {
    server = record cfg.server {
      port =
          if str_eq (env "PORT") ""
          then cfg.server.port
          else port_or_keep (parse_int (codes (env "PORT"))) cfg.server.port;
    };
    upstream = record cfg.upstream {
      target_url = or_keep (env "UPSTREAM_URL") cfg.upstream.target_url;
    };
    redis = record cfg.redis { addr = or_keep (env "REDIS_ADDR") cfg.redis.addr };
    security = record cfg.security {
      master_key = or_keep (env "AEGIS_MASTER_KEY") cfg.security.master_key;
    };
    postgres = record cfg.postgres {
      host = or_keep (env "POSTGRES_HOST") cfg.postgres.host;
      user = or_keep (env "POSTGRES_USER") cfg.postgres.user;
      password = or_keep (env "POSTGRES_PASSWORD") cfg.postgres.password;
      db_name = or_keep (env "POSTGRES_DB") cfg.postgres.db_name;
    };
  }

  -- The goroutines that `notifyListeners` starts.
  abbrev pub notify_listeners : List ℕ → Config Float64 → List (ℕ × Config Float64)
  notify_listeners listeners cfg = map (λ fn. (fn, cfg)) listeners

  -- `parsed` is none where the file cannot be read or is not YAML; then nothing changes.
  unfoldable pub load_from_file :
      Env
      → Option (Config Float64)
      → ConfigManager Float64
      → ConfigManager Float64 × Option (List (ℕ × Config Float64))
  unfolding apply_env_overrides
  load_from_file env none cm = (cm, none)
  load_from_file env (some parsed) cm =
      let cfg = apply_env_overrides env parsed in
      (record cm { cfg = cfg }, some (notify_listeners cm.listeners cfg))

  unfoldable pub new_config_manager :
      Env → Float64 → String → Option (Config Float64) → ConfigManager Float64
  unfolding load_from_file
  new_config_manager env default_cost file_path parsed =
      let fresh : ConfigManager Float64 = record {
        file_path = file_path;
        cfg = default_config default_cost;
        listeners = [];
      } in
      let loaded = if str_eq file_path "" then fresh else (load_from_file env parsed fresh).0 in
      record loaded { cfg = apply_env_overrides env loaded.cfg }

  unfoldable pub update :
      Config Float64 → ConfigManager Float64 → ConfigManager Float64 × List (ℕ × Config Float64)
  update cfg cm = (record cm { cfg = cfg }, notify_listeners cm.listeners cfg)

  unfoldable pub get_tier : ConfigManager Float64 → String → Option TierConfig
  get_tier cm tier_name = lookup (lower tier_name) cm.cfg.tiers

  unfoldable pub set_jitter :
      Bool → ℤ → ℤ → ℤ → ConfigManager Float64 → ConfigManager Float64 × List (ℕ × Config Float64)
  unfolding jitter_after
  set_jitter enabled percentage min_ms max_ms cm =
      let up = cm.cfg.upstream in
      let cfg = record cm.cfg {
        upstream = record up { jitter = jitter_after enabled percentage min_ms max_ms up.jitter };
      } in
      (record cm { cfg = cfg }, notify_listeners cm.listeners cfg)

  unfoldable pub on_change : ℕ → ConfigManager Float64 → ConfigManager Float64
  on_change fn cm = record cm { listeners = cm.listeners ++ fn ∷ [] }

  -- The loop of `Watch`, which counts its reloads.
  unfoldable pub watch_loop :
      Env → Time → ℕ → List (WatchEvent Float64) → ConfigManager Float64 → ConfigManager Float64 × ℕ
  unfolding load_from_file
  watch_loop env last reloads [] cm = (cm, reloads)
  watch_loop env last reloads (done ∷ events) cm = (cm, reloads)
  watch_loop env last reloads (ignored ∷ events) cm = watch_loop env last reloads events cm
  watch_loop env last reloads (changed now stamp parsed ∷ events) cm =
      let due = ltb_ℤ (pos (300 * millisecond)) (sub_time now last) in
      watch_loop env (if due then stamp else last) (if due then reloads + 1 else reloads) events
        (if due then (load_from_file env parsed cm).0 else cm)

-- `DSN`.
unfoldable pub dsn : Env → PostgresConfig → Text
dsn env p =
    if str_eq (env "DATABASE_URL") ""
    then codes "postgres://"
      ++ codes p.user
      ++ (b':' ∷ codes p.password)
      ++ (b'@' ∷ codes p.host)
      ++ (b':' ∷ print_int p.port)
      ++ (b'/' ∷ codes p.db_name)
      ++ codes "?sslmode="
      ++ codes p.ssl_mode
    else codes (env "DATABASE_URL")
