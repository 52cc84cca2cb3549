-- ===== src/Launch/Start.antt =====
-- How main makes the parts of a gateway, NewGatewayProxy of internal/proxy/proxy.go, and the reporter of
-- Redis memory.
use aegis_pulse.Base.{
  ◌≡◌, ap, Bool, true, false, Option, none, some, [], String, str_eq, if◌then◌else◌, ltb_ℤ, ℤ, pos,
  negsuc, Text,
}
use aegis_pulse.Clock.{Time, second, millisecond}
use aegis_pulse.Config.{ConfigManager, Env, new_config_manager, dsn}
use aegis_pulse.Config.Types.{Config}
use aegis_pulse.Cache.Breaker.{CircuitBreaker, new_circuit_breaker, allow_request}
use aegis_pulse.Cache.Store.{SmartCache, new_smart_cache}
use aegis_pulse.Metrics.{Metrics, Prometheus, new_metrics, set_redis_memory}
use aegis_pulse.Proxy.{GatewayProxy}
use aegis_pulse.RateLimit.Redis.{RedisLimiter, new_limiter}
use aegis_pulse.Storage.Redis.{RedisServer, RedisClient, new_redis_client, get_memory_usage}
use aegis_pulse.Storage.Keys.{Database, Repo}
use aegis_pulse.Storage.Keys.Seed.{new_postgres_repo}
use aegis_pulse.Webhook.Delivery.{scale64}
use aegis_pulse.Webhook.Dlq.{DlqItem, DlqManager}
use aegis_pulse.Webhook.Dlq.Stream.{StreamServer, new_dlq_manager, load_items}

-- What the reverse proxy takes of a parsed URL.
pub record Url : Type 0 where
  pub scheme : String
  pub host : String

-- Where a request is directed: to the target of the current configuration, or as the standard director
-- does for the target of the start.
pub data Direction : Type 0 where
  to_current : Url → Direction
  by_default : Direction

-- The director, on what the current target parses to.
unfoldable pub direct : Option Url → Direction
direct none = by_default
direct (some url) = if str_eq url.host "" then by_default else to_current url

-- NewGatewayProxy, once the target's URL has parsed or not; `none` is its error.
unfoldable pub new_gateway_proxy :
    {S D P Float64 L : Type 0}
    → Option Url
    → ConfigManager Float64
    → Repo S D
    → L
    → SmartCache
    → CircuitBreaker
    → DlqManager
    → Metrics P Float64
    → Time
    → Option (GatewayProxy S D P Float64 L)
new_gateway_proxy none config repo limiter smart_cache circuit_breaker dlq metrics now = none
new_gateway_proxy (some url) config repo limiter smart_cache circuit_breaker dlq metrics now =
    some (record {
      config = config;
      repo = repo;
      limiter = limiter;
      smart_cache = smart_cache;
      circuit_breaker = circuit_breaker;
      events = [];
      dlq = dlq;
      metrics = metrics;
      jitter_override = negsuc 0;
      started_at = now;
    })

-- What main finds: the environment, the configuration file, the servers that answer, and the libraries.
-- `text` makes a string of its code points, and `registry` is a new Prometheus registry.
pub record Host (S D P Float64 : Type 0) : Type 0 where
  pub env : Env
  pub config_file : Option (Config Float64)
  pub default_cost : Float64
  pub registry : P
  pub text : Text → String
  pub parse_url : String → Option Url
  pub connect_redis : String → Option S
  pub connect_database : String → Option D
  pub migrate : D → D
  pub server : RedisServer S
  pub stream : StreamServer S
  pub database : Database D Float64
  pub hash_key : String → String
  pub encrypt_key : String → String
  pub marshal_item : DlqItem → Option Text
  pub unmarshal_item : Text → Option DlqItem

module _ {S D P Float64 : Type 0} (host : Host S D P Float64) where
  abbrev start_config : String → ConfigManager Float64
  start_config path = new_config_manager host.env host.default_cost path host.config_file

  abbrev start_breaker : Config Float64 → Time → CircuitBreaker
  start_breaker cfg now =
      let cb = cfg.cache.circuit_breaker in
      new_circuit_breaker cb.max_consecutive_failures (scale64 cb.failure_latency_ms millisecond)
        (scale64 cb.cooldown_seconds second) now

  abbrev start_repo : Config Float64 → Option (RedisClient S) → Time → Repo S D
  start_repo cfg redis now =
      new_postgres_repo host.server host.database host.hash_key host.encrypt_key host.migrate
        host.connect_database (host.text (dsn host.env cfg.postgres)) now redis

  -- The queue, with what the stream of an earlier run holds; an error of the load is ignored.
  abbrev start_queue : Config Float64 → Option S → DlqManager
  start_queue cfg client =
      (load_items host.stream host.marshal_item host.unmarshal_item
        (new_dlq_manager client cfg.redis.stream_dlq)).0.in_memory

  -- `path` is the flag; `none` is the fatal error of a target that is no URL.
  unfoldable pub start_gateway :
      String → Time → Option (GatewayProxy S D P Float64 (RedisLimiter S))
  unfolding new_gateway_proxy
  start_gateway path now =
      let config = start_config path in
      let cfg = config.cfg in
      let redis = new_redis_client host.connect_redis cfg.redis.addr in
      new_gateway_proxy (host.parse_url cfg.upstream.target_url) config
        (start_repo cfg (some redis) now) (new_limiter redis.client cfg.redis.stream_events)
        new_smart_cache (start_breaker cfg now) (start_queue cfg redis.client)
        (new_metrics host.registry) now

  -- A tick of the goroutine that reports the memory that Redis uses. `float_of` is the conversion, and
  -- `info` the reply of the server.
  abbrev positive_memory :
      Prometheus P Float64 → (ℤ → Float64) → Option ℤ → Metrics P Float64 → Metrics P Float64
  positive_memory prom float_of none m = m
  positive_memory prom float_of (some mem) m =
      if ltb_ℤ (pos 0) mem then set_redis_memory prom (float_of mem) m else m

  abbrev is_connected : Option S → Bool
  is_connected none = false
  is_connected (some s) = true

  unfoldable pub report_memory :
      Prometheus P Float64
      → (ℤ → Float64)
      → (S → Option Text)
      → RedisClient S
      → Metrics P Float64
      → Metrics P Float64
  report_memory prom float_of info redis m =
      if is_connected redis.client
      then positive_memory prom float_of (get_memory_usage info redis) m
      else m

  -- What a proxy is made of.
  new_gateway_proxy-parts :
      {L : Type 0} (o : Option Url) (config : ConfigManager Float64) (repo : Repo S D) (limiter : L)
      (cache : SmartCache) (cb : CircuitBreaker) (dlq : DlqManager) (metrics : Metrics P Float64)
      (now : Time) (g : GatewayProxy S D P Float64 L)
      → new_gateway_proxy o config repo limiter cache cb dlq metrics now ≡ some g
      → (g.circuit_breaker ≡ cb)
        × (g.limiter ≡ limiter)
        × (g.jitter_override ≡ negsuc 0)
        × (g.smart_cache ≡ cache)
  unfolding new_gateway_proxy
  new_gateway_proxy-parts none config repo limiter cache cb dlq metrics now g h = cc
  new_gateway_proxy-parts (some url) config repo limiter cache cb dlq metrics now g h =
      (cc, cc, cc, cc)

  -- A gateway that has started lets its first request pass to the upstream, has neither a cutoff nor a
  -- freeze, takes its jitter from the configuration and has an empty cache.
  pub start_gateway-IsOpen :
      (path : String) (now at : Time) (g : GatewayProxy S D P Float64 (RedisLimiter S))
      → start_gateway path now ≡ some g
      → ((allow_request g.circuit_breaker at).1.0 ≡ true)
        × (g.circuit_breaker.emergency_cutoff ≡ false)
        × (g.limiter.global_burst_freeze ≡ false)
        × (g.jitter_override ≡ negsuc 0)
        × (g.smart_cache ≡ new_smart_cache)
  unfolding start_gateway new_circuit_breaker new_limiter allow_request
  start_gateway-IsOpen path now at g h =
      let (breaker, limiter, jitter, cache) = new_gateway_proxy-parts _ _ _ _ _ _ _ _ _ g h in
      (
        ap (λ cb. (allow_request cb at).1.0) breaker,
        ap (λ cb. cb.emergency_cutoff) breaker,
        ap (λ l. l.global_burst_freeze) limiter,
        jitter,
        cache,
      )
