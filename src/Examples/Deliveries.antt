-- ===== src/Examples/Deliveries.antt =====
-- The theorems on the cache, the configuration, the deliveries and the jitter.
use aegis_pulse.Base.{
  ℕ, ◌≡◌, ◌↔◌, ◌<◌, refl, Bool, true, false, Option, some, List, [], ◌∷◌, pos, arith, ltb,
  if◌then◌else◌, ◌+ℤ◌, Text, str_eq,
}
use aegis_pulse.Cache.Store
use aegis_pulse.Cache.Store.{SmartCache, CacheEntry, tick, cleanup_loop, evict_expired}
use aegis_pulse.Cache.Store.Eviction.{fallback_survives}
use aegis_pulse.Config.{Env, apply_env_overrides}
use aegis_pulse.Config.Types.{JitterConfig, default_config, WebhooksConfig}
use aegis_pulse.Config.Reload.{IsUsable, apply_env_overrides_idem}
use aegis_pulse.Webhook.Delivery.{Reply, status}
use aegis_pulse.Webhook.Adapters.{Payload}
use aegis_pulse.Webhook.Dlq.{DlqItem, DlqManager}
use aegis_pulse.Proxy.{panics, jitter_delay}
use aegis_pulse.Proxy.Delays.{delays, jitter_delay-panics_iff}

abbrev page : CacheEntry
page = record {
  status_code = pos 200;
  header = [];
  body = 104 ∷ 105 ∷ [];
  expires_at = pos 300;
  cached_at = pos 0;
}

abbrev cached : SmartCache
cached = record { entries = ("GET:/", page) ∷ []; stopped = false }

fallback_survives_example :
    Store.get
      (cleanup_loop
        (Store.set cached "GET:/a" (pos 200) [] (1 ∷ []) (pos 300) (pos 10))
        (tick (pos 400) ∷ tick (pos 5000) ∷ []))
      "GET:/a"
    ≡ some (record {
      status_code = pos 200;
      header = [];
      body = 1 ∷ [];
      expires_at = pos 310;
      cached_at = pos 10;
    })
unfolding ◌+ℤ◌
fallback_survives_example =
    fallback_survives cached "GET:/a" (pos 200) [] (1 ∷ []) (pos 300) (pos 10)
      (tick (pos 400) ∷ tick (pos 5000) ∷ []) (tt, tt) (omega arith, (omega arith, tt))

-- A cost, where any type will do.
abbrev cost : ℕ
cost = 5

abbrev port_env : Env
port_env name = if str_eq name "PORT" then "9000" else ""

apply_env_overrides_idem_example :
    apply_env_overrides port_env (apply_env_overrides port_env (default_config cost))
    ≡ apply_env_overrides port_env (default_config cost)
apply_env_overrides_idem_example = apply_env_overrides_idem port_env (default_config cost)

abbrev jitter : JitterConfig
jitter = record {
  enabled = false;
  percentage = pos 30;
  min_delay_ms = pos 200;
  max_delay_ms = pos 500;
}

jitter-IsUsable : IsUsable jitter
jitter-IsUsable = record { percent = (omega arith, omega arith); delay = omega arith }

abbrev pub sinks : WebhooksConfig
sinks = record {
  worker_concurrency = pos 4;
  max_retries = pos 3;
  retry_base_delay_ms = pos 1000;
  sinks = [];
}

-- The third attempt succeeds.
abbrev pub flaky : ℕ → Reply
flaky n = if ltb n 2 then status (pos 500) else status (pos 204)

abbrev pub never : ℕ → Bool
never n = false

abbrev pub lost : DlqItem
lost = record {
  id = "d1";
  event = record {
    event_id = "e1";
    event_type = "BURST_OVERAGE";
    api_key = "a";
    tier = "free";
    timestamp = pos 10;
    title = "";
    description = "";
    channel = "";
    signature = [];
    metadata = [];
  };
  sink_type = "generic";
  target_url = "http://sink";
  secret = [];
  retry_count = pos 0;
  last_error = status (pos 500);
  failed_at = pos 10;
  payload_json = [];
}

abbrev queue : DlqManager
queue = ("d1", lost) ∷ []

abbrev pub no_hmac : Text → Text → List ℕ
no_hmac secret text = 0 ∷ []

abbrev pub no_json : Payload → Option Text
no_json p = some []

jitter_delay-panics_iff_example :
    (jitter_delay true (delays 600 500 jitter) (pos 7) (λ n. pos 0) ≡ panics)
    ↔ ((500 < 600) × (500 < 600))
jitter_delay-panics_iff_example =
    jitter_delay-panics_iff 600 500 jitter (pos 7) (λ n. pos 0) (omega arith) (omega arith)
      (omega arith) (omega arith) refl refl
