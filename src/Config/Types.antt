-- ===== src/Config/Types.antt =====
-- The structs of config/config.go. `Float64` is the type of the one price, which is a parameter;
-- every `int` and `int64` is an integer.
use aegis_pulse.Base.{Bool, true, false, String, [], ◌∷◌, ℤ, pos, Dict}

pub record ServerConfig : Type 0 where
  pub port : ℤ
  pub admin_port : ℤ
  pub read_timeout_ms : ℤ
  pub write_timeout_ms : ℤ

pub record JitterConfig : Type 0 where
  pub enabled : Bool
  pub percentage : ℤ
  pub min_delay_ms : ℤ
  pub max_delay_ms : ℤ

pub record UpstreamConfig : Type 0 where
  pub target_url : String
  pub timeout_ms : ℤ
  pub jitter : JitterConfig

pub record TierConfig : Type 0 where
  pub soft_limit : ℤ
  pub hard_limit : ℤ
  pub window_seconds : ℤ
  pub replay_window_seconds : ℤ

pub record MonetizationConfig (Float64 : Type 0) : Type 0 where
  pub cost_per_credit : Float64
  pub currency : String

pub record CircuitBreakerConfig : Type 0 where
  pub max_consecutive_failures : ℤ
  pub failure_latency_ms : ℤ
  pub cooldown_seconds : ℤ

pub record CacheConfig : Type 0 where
  pub ttl_seconds : ℤ
  pub cleanup_interval_seconds : ℤ
  pub circuit_breaker : CircuitBreakerConfig

pub record RedisConfig : Type 0 where
  pub addr : String
  pub password : String
  pub db : ℤ
  pub stream_events : String
  pub stream_dlq : String

pub record PostgresConfig : Type 0 where
  pub host : String
  pub port : ℤ
  pub user : String
  pub password : String
  pub db_name : String
  pub ssl_mode : String

pub record SecurityConfig : Type 0 where
  pub master_key : String
  pub header_api_key : String
  pub header_signature : String

pub record SinkDetail : Type 0 where
  pub enabled : Bool
  pub endpoint : String

pub record WebhooksConfig : Type 0 where
  pub worker_concurrency : ℤ
  pub max_retries : ℤ
  pub retry_base_delay_ms : ℤ
  pub sinks : Dict SinkDetail

pub record Config (Float64 : Type 0) : Type 0 where
  pub server : ServerConfig
  pub upstream : UpstreamConfig
  pub tiers : Dict TierConfig
  pub monetization : MonetizationConfig Float64
  pub cache : CacheConfig
  pub redis : RedisConfig
  pub postgres : PostgresConfig
  pub security : SecurityConfig
  pub webhooks : WebhooksConfig

-- `default_cost` is the literal 0.005.
unfoldable pub default_config : {Float64 : Type 0} → Float64 → Config Float64
default_config default_cost = record {
  server = record {
    port = pos 8080;
    admin_port = pos 8082;
    read_timeout_ms = pos 5000;
    write_timeout_ms = pos 10000;
  };
  upstream = record {
    target_url = "http://upstream:8081";
    timeout_ms = pos 1500;
    jitter = record {
      enabled = false;
      percentage = pos 30;
      min_delay_ms = pos 200;
      max_delay_ms = pos 500;
    };
  };
  tiers =
      (
        "free",
        record {
          soft_limit = pos 20;
          hard_limit = pos 25;
          window_seconds = pos 60;
          replay_window_seconds = pos 60;
        },
      )
      ∷ (
        "pro",
        record {
          soft_limit = pos 100;
          hard_limit = pos 140;
          window_seconds = pos 60;
          replay_window_seconds = pos 300;
        },
      )
      ∷ (
        "enterprise",
        record {
          soft_limit = pos 1000;
          hard_limit = pos 1300;
          window_seconds = pos 60;
          replay_window_seconds = pos 600;
        },
      )
      ∷ [];
  monetization = record { cost_per_credit = default_cost; currency = "USD" };
  cache = record {
    ttl_seconds = pos 300;
    cleanup_interval_seconds = pos 60;
    circuit_breaker = record {
      max_consecutive_failures = pos 3;
      failure_latency_ms = pos 1000;
      cooldown_seconds = pos 10;
    };
  };
  redis = record {
    addr = "redis:6379";
    password = "";
    db = pos 0;
    stream_events = "stream:gateway:events";
    stream_dlq = "stream:gateway:dlq";
  };
  postgres = record {
    host = "postgres";
    port = pos 5432;
    user = "aegis";
    password = "aegis_secure_password";
    db_name = "aegispulse";
    ssl_mode = "disable";
  };
  security = record {
    master_key = "0123456789abcdef0123456789abcdef0123456789abcdef0123456789abcdef";
    header_api_key = "X-API-Key";
    header_signature = "X-Aegis-Signature";
  };
  webhooks = record {
    worker_concurrency = pos 4;
    max_retries = pos 3;
    retry_base_delay_ms = pos 1000;
    sinks =
        (
          "generic",
          record { enabled = true; endpoint = "http://webhook-receiver:8083/webhook/generic" },
        )
        ∷ (
          "discord",
          record { enabled = true; endpoint = "http://webhook-receiver:8083/webhook/discord" },
        )
        ∷ (
          "slack",
          record { enabled = true; endpoint = "http://webhook-receiver:8083/webhook/slack" },
        )
        ∷ [];
  };
}
