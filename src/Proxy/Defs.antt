-- ===== src/Proxy/Defs.antt =====
-- GatewayProxy: its state, a request, and what it works with. `cmd/gateway/main.go` gives the
-- repository and the proxy one Redis client, so the proxy's is the one in `repo`.
use aegis_pulse.Base.{ℕ, Bool, Option, List, String, ℤ, Text}
use aegis_pulse.Clock.{Time, Duration}
use aegis_pulse.Config.{ConfigManager}
use aegis_pulse.RateLimit.Interface.{Limiter}
use aegis_pulse.Cache.Breaker.{CircuitBreaker}
use aegis_pulse.Cache.Store.{SmartCache}
use aegis_pulse.Storage.Redis.{RedisServer}
use aegis_pulse.Storage.Keys.{Database, Repo}
use aegis_pulse.Webhook.Adapters.{UniversalEvent, Payload}
use aegis_pulse.Webhook.Delivery.{Reply}
use aegis_pulse.Webhook.Dlq.{DlqManager, SignedRequest}
use aegis_pulse.Metrics.{Metrics, Prometheus}
use aegis_pulse.Proxy.Recorder.{ResponseRecorder, Response}

-- `events` and `dlq` are the webhook engine's channel and queue.
pub record GatewayProxy (S D P Float64 L : Type 0) : Type 0 where
  pub config : ConfigManager Float64
  pub repo : Repo S D
  pub limiter : L
  pub smart_cache : SmartCache
  pub circuit_breaker : CircuitBreaker
  pub events : List UniversalEvent
  pub dlq : DlqManager
  pub metrics : Metrics P Float64
  pub jitter_override : ℤ
  pub started_at : Time

-- A body that is nil, one that fails to be read, and one that is read.
pub data RequestBody : Type 0 where
  no_body unreadable : RequestBody
  bytes : Text → RequestBody

-- A header that is absent reads as the empty text.
pub record ClientRequest : Type 0 where
  pub method : String
  pub path : String
  pub request_uri : String
  pub api_key : String
  pub signature : Text
  pub body : RequestBody

-- What the handler reads of the clock and of the random generator, in the order it does.
pub record Readings : Type 0 where
  pub verify_at : ℤ
  pub verify_again : ℤ
  pub check_at : ℤ
  pub month : String
  pub event_id : String
  pub burst_at : ℤ
  pub roll : ℤ
  pub intn : ℤ → ℤ
  pub allow_at : Time
  pub latency : Duration
  pub settled_at : Time
  pub cached_at : Time

-- The fields that decoding the body of an administration request gives; a field that it lacks, or a
-- body that is no JSON, leaves the zero value.
pub record AdminBody : Type 0 where
  pub api_key : String
  pub frozen : Bool
  pub cutoff : Bool
  pub enabled : Option Bool
  pub dlq_id : String

-- What an administration request reads of the clock; two identifiers are made from it.
pub record AdminReadings : Type 0 where
  pub frozen_at : Time
  pub now_unix : ℤ
  pub audit_id : String
  pub audit_at : Time
  pub event_id : String

-- The handlers that serve a page.
pub data Page : Type 0 where
  metrics_page demo_page swagger_page : Page

-- The code that the proxy calls and that is not modelled. `forward` is the reverse proxy, which
-- writes to a recorder.
pub record World (S D P Float64 L : Type 0) : Type 0 where
  pub server : RedisServer S
  pub database : Database D Float64
  pub hash_key : String → String
  pub hmac : Text → Text → List ℕ
  pub prom : Prometheus P Float64
  pub limiter : Limiter L
  pub page : Page → ClientRequest → Response → Response
  pub decode : ClientRequest → AdminBody
  pub marshal : Payload → Option Text
  pub send : SignedRequest → Reply
  pub forward : ClientRequest → ResponseRecorder → ResponseRecorder
  pub seconds : Duration → Float64
  pub revenue : ℤ → Float64 → Float64
  pub format_int : ℤ → String
  pub format_float : Float64 → String

-- The end of a request: the gateway after it, the response, which a panic does not send, and whether
-- the reverse proxy was called.
pub record Served (S D P Float64 L : Type 0) : Type 0 where
  pub gateway : GatewayProxy S D P Float64 L
  pub response : Option Response
  pub forwarded : Bool
