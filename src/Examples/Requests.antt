-- ===== src/Examples/Requests.antt =====
-- The gateway's theorems on concrete requests.
use aegis_pulse.Base.{
  ℕ, ◌+◌, ◌≡◌, inr, refl, true, false, none, some, [], ◌∷◌, String, ℤ, pos, negsuc, codes, Dict,
  lookup, strip_prefix, text_eq, lower,
}
use aegis_pulse.Cache.Breaker.{CircuitBreaker, closed, half_open, allow_request}
use aegis_pulse.Cache.Breaker.Probing.{count_allowed}
use aegis_pulse.Cache.Store.{CacheEntry, new_smart_cache}
use aegis_pulse.Config.{get_tier}
use aegis_pulse.Config.Types.{default_config}
use aegis_pulse.Metrics.{Prometheus, new_metrics}
use aegis_pulse.RateLimit.Window.{InMemoryLimiter, new_in_memory_limiter, check}
use aegis_pulse.RateLimit.Interface.{in_memory}
use aegis_pulse.Storage.Keys.{matches, get_api_key}
use aegis_pulse.Storage.Keys.Freeze.{looks_up, run}
use aegis_pulse.Webhook.Delivery.{status}
use aegis_pulse.Proxy.{
  ResponseRecorder, new_response_recorder, empty_response, serve_cached_response, GatewayProxy,
  no_body, ClientRequest, Readings, AdminReadings, World, complete, ask_breaker, is_admin_path,
  kill, serve_internal, serve_keyed, after_delay, jitter_delay, is_jitter_active,
}
use aegis_pulse.Proxy.Guards.{IsAdmitted}
use aegis_pulse.Proxy.Outcomes.{complete-serves_stale, client_error_locks_out}
use aegis_pulse.Proxy.Routes.{
  serve_internal-IsAdmitted, cutoff_forwards_nothing, kill_forwards_nothing,
}
use aegis_pulse.Examples.Signatures.{server, database, hash, repo, key_record, byte_hmac}

-- An upstream that answers with one status.
abbrev answer_with : ℤ → ClientRequest → ResponseRecorder → ResponseRecorder
answer_with code r rec = record rec { status_code = code; body = 104 ∷ 105 ∷ [] }

abbrev prom : Prometheus ℕ ℕ
prom = record {
  inc = λ name labels p. p + 1;
  set_gauge = λ name labels x p. p;
  reset = λ name p. p;
  observe = λ name x p. p + 1;
  of_int = λ n. 0;
  to_int = λ x. pos x;
}

abbrev pub world : ℤ → World (Dict String) ℕ ℕ ℕ InMemoryLimiter
world code = record {
  server = server;
  database = database;
  hash_key = hash;
  hmac = byte_hmac;
  prom = prom;
  limiter = in_memory;
  page = λ p r w. w;
  decode =
      λ r. record { api_key = ""; frozen = false; cutoff = false; enabled = none; dlq_id = "" };
  marshal = λ p. none;
  send = λ r. status (pos 200);
  forward = answer_with code;
  seconds = λ d. 0;
  revenue = λ n x. x;
  format_int = λ n. "";
  format_float = λ x. "";
}

abbrev pub breaker : CircuitBreaker
breaker = record {
  state = closed;
  consecutive_failures = pos 0;
  consecutive_successes = pos 0;
  failure_threshold = pos 3;
  cooldown = pos 20;
  latency_threshold = pos 1000;
  last_state_change = pos 100;
  emergency_cutoff = false;
  half_open_probing = false;
}

abbrev pub gateway : GatewayProxy (Dict String) ℕ ℕ ℕ InMemoryLimiter
gateway = record {
  config = record { file_path = ""; cfg = default_config 5; listeners = [] };
  repo = repo;
  limiter = new_in_memory_limiter;
  smart_cache = new_smart_cache;
  circuit_breaker = breaker;
  events = [];
  dlq = [];
  metrics = new_metrics 0;
  jitter_override = negsuc 0;
  started_at = pos 0;
}

abbrev get_page : ClientRequest
get_page = record {
  method = "GET";
  path = "/page";
  request_uri = "/page?x=1";
  api_key = "key";
  signature = [];
  body = no_body;
}

abbrev pub readings : Readings
readings = record {
  verify_at = pos 1000;
  verify_again = pos 1000;
  check_at = pos 1000;
  month = "2026-01";
  event_id = "burst_1";
  burst_at = pos 1000;
  roll = pos 50;
  intn = λ n. pos 0;
  allow_at = pos 1000;
  latency = pos 10;
  settled_at = pos 1010;
  cached_at = pos 1010;
}

abbrev pub admin : AdminReadings
admin = record {
  frozen_at = pos 1;
  now_unix = pos 1;
  audit_id = "audit_1";
  audit_at = pos 1;
  event_id = "kill_1";
}

page_is_forwarded :
    (serve_internal
      (world (pos 200))
      (pos 9)
      admin
      readings
      get_page
      gateway
      (empty_response [])).forwarded
    ≡ true
unfolding serve_internal strip_prefix serve_keyed get_api_key lookup text_eq check
    new_in_memory_limiter get_tier default_config lower after_delay jitter_delay is_jitter_active
    allow_request new_response_recorder
page_is_forwarded = refl

serve_internal-IsAdmitted_example :
    (is_admin_path (codes "/page") ≡ false) × IsAdmitted (world (pos 200)) readings get_page gateway
serve_internal-IsAdmitted_example =
    serve_internal-IsAdmitted (world (pos 200)) (pos 9) admin readings get_page gateway
      (empty_response []) page_is_forwarded

cutoff_forwards_nothing_example :
    (serve_internal
      (world (pos 200))
      (pos 9)
      admin
      readings
      get_page
      (record gateway { circuit_breaker = record breaker { emergency_cutoff = true } })
      (empty_response [])).forwarded
    ≡ false
cutoff_forwards_nothing_example =
    cutoff_forwards_nothing (world (pos 200)) (pos 9) admin readings get_page
      (record gateway { circuit_breaker = record breaker { emergency_cutoff = true } })
      (empty_response []) refl

-- The gateway after the kill switch, and a lookup of another key.
abbrev killed : GatewayProxy (Dict String) ℕ ℕ ℕ InMemoryLimiter
killed = record gateway {
  repo =
      run server database hash
        (kill (world (pos 200)) admin "key" gateway (empty_response [])).0.repo
        (looks_up "other" ∷ []);
}

kill_forwards_nothing_example :
    (serve_internal
      (world (pos 200))
      (pos 9)
      admin
      readings
      get_page
      killed
      (empty_response [])).forwarded
    ≡ false
unfolding lookup matches
kill_forwards_nothing_example =
    kill_forwards_nothing (world (pos 200)) (pos 9) admin admin readings get_page gateway killed
      (empty_response []) (empty_response []) (key_record "k1") (looks_up "other" ∷ []) refl
      (λ e. cc, (λ e. refl, tt)) refl refl

-- What the upstream's answer leaves in the recorder.
abbrev recorded : ℤ → ResponseRecorder
recorded code = record {
  status_code = code;
  header_map = [];
  body = 104 ∷ 105 ∷ [];
  proxy_error = none;
}

complete-serves_stale_example :
    (entry : CacheEntry) × ((complete
        (world (pos 200))
        readings
        get_page
        (recorded (pos 200))
        (complete
          (world (pos 200))
          readings
          get_page
          (recorded (pos 200))
          gateway
          (empty_response [])
          none).gateway
        (empty_response [])
        (some (codes "refused"))).response
      ≡ some (serve_cached_response entry (codes "STALE-FALLBACK") (empty_response [])))
    × (entry.status_code ≡ pos 200)
    × (entry.header ≡ [])
    × (entry.body ≡ 104 ∷ 105 ∷ [])
complete-serves_stale_example =
    complete-serves_stale (world (pos 200)) readings readings get_page get_page (recorded (pos 200))
      (recorded (pos 200)) gateway (empty_response []) (empty_response []) (codes "refused") refl
      refl refl

abbrev half_opened : GatewayProxy (Dict String) ℕ ℕ ℕ InMemoryLimiter
half_opened = record gateway { circuit_breaker = record breaker { state = half_open } }

client_error_locks_out_example :
    count_allowed
      (ask_breaker
        (world (pos 404))
        readings
        get_page
        half_opened
        (empty_response [])).gateway.circuit_breaker
      (pos 2000 ∷ pos 900000 ∷ [])
    ≡ 0
unfolding allow_request new_response_recorder
client_error_locks_out_example =
    client_error_locks_out (world (pos 404)) readings get_page half_opened (empty_response [])
      (pos 2000 ∷ pos 900000 ∷ []) (inr refl) refl refl refl refl refl
