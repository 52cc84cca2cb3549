-- ===== src/Proxy/Pipeline.antt =====
-- `serveInternal` of GatewayProxy, from step 7 on. Each numbered step is a function, which ends the
-- request or calls the next step; `w` is what is written of the response so far.
use Prim.Native.String.{◌++◌}
use aegis_pulse.Base.{
  ◌*◌, Bool, true, false, ◌&&◌, ◌||◌, Option, none, some, String, if◌then◌else◌, ltb_ℤ, leb_ℤ, pos,
  Text, codes,
}
use aegis_pulse.Clock.{second}
use aegis_pulse.Cache.Breaker.{CircuitState, allow_request, record_success, record_failure}
use aegis_pulse.Cache.Store.{CacheEntry}
use aegis_pulse.Cache.Store
use aegis_pulse.Webhook.Delivery.{scale64}
use aegis_pulse.Metrics.{record_latency, record_cache_fallback, set_circuit_breaker_state_metric}
use aegis_pulse.Proxy.Recorder.{
  ResponseRecorder, new_response_recorder, Response, unreachable_json, unavailable_json, flush,
  serve_cached_response, respond_json,
}
use aegis_pulse.Proxy.Jitter.{Delay, panics, is_jitter_active, jitter_delay}
use aegis_pulse.Proxy.Defs.{GatewayProxy, ClientRequest, Readings, World, Served}

abbrev pub cache_key : ClientRequest → String
cache_key r = r.method ++ ":" ++ r.request_uri

module _ {S D P Float64 L : Type 0} (env : World S D P Float64 L) where
  abbrev pub answered : GatewayProxy S D P Float64 L → Bool → Response → Served S D P Float64 L
  answered g forwarded w = record { gateway = g; response = some w; forwarded = forwarded }

  -- The entry of the cache, if there is one, in place of the answer `w`.
  abbrev pub serve_entry :
      GatewayProxy S D P Float64 L
      → Bool
      → Option CacheEntry
      → Response
      → Response
      → Served S D P Float64 L
  serve_entry g forwarded none w otherwise = answered g forwarded otherwise
  serve_entry g forwarded (some entry) w otherwise =
      answered (record g { metrics = record_cache_fallback env.prom g.metrics }) forwarded
        (serve_cached_response entry (codes "STALE-FALLBACK") w)

  abbrev pub failed_with : Readings → GatewayProxy S D P Float64 L → GatewayProxy S D P Float64 L
  failed_with c g = record g {
    circuit_breaker = record_failure g.circuit_breaker c.latency c.settled_at;
  }

  abbrev pub succeeded_with :
      Readings
      → ClientRequest
      → ResponseRecorder
      → GatewayProxy S D P Float64 L
      → GatewayProxy S D P Float64 L
  succeeded_with c r rec g =
      let ttl = scale64 g.config.cfg.cache.ttl_seconds second in
      record g {
        circuit_breaker = record_success g.circuit_breaker c.settled_at;
        smart_cache =
            Store.set g.smart_cache (cache_key r) rec.status_code rec.header_map rec.body
              (if leb_ℤ ttl (pos 0) then pos (300 * second) else ttl) c.cached_at;
      }

  -- Step 9 once the recorder holds the outcome.
  unfoldable pub complete :
      Readings
      → ClientRequest
      → ResponseRecorder
      → GatewayProxy S D P Float64 L
      → Response
      → Option Text
      → Served S D P Float64 L
  complete c r rec g w (some err) =
      serve_entry (failed_with c g) true (Store.get g.smart_cache (cache_key r)) w
        (respond_json (pos 502) (unreachable_json err) w)
  complete c r rec g w none =
      if leb_ℤ (pos 500) rec.status_code || leb_ℤ g.circuit_breaker.latency_threshold c.latency
      then serve_entry (failed_with c g) true (Store.get g.smart_cache (cache_key r)) w
          (flush rec w)
      else if leb_ℤ (pos 200) rec.status_code && ltb_ℤ rec.status_code (pos 400)
      then answered (succeeded_with c r rec g) true (flush rec w)
      else answered g true (flush rec w)

  unfoldable pub forward_request :
      Readings → ClientRequest → GatewayProxy S D P Float64 L → Response → Served S D P Float64 L
  unfolding complete
  forward_request c r g w =
      let rec = env.forward r new_response_recorder in
      complete c r rec
        (record g { metrics = record_latency env.prom (env.seconds c.latency) g.metrics }) w
        rec.proxy_error

  abbrev pub with_answer :
      CircuitState → GatewayProxy S D P Float64 L → GatewayProxy S D P Float64 L
  with_answer state g = record g {
    metrics = set_circuit_breaker_state_metric env.prom state g.metrics;
  }

  -- Step 8, with the breaker's answer.
  unfoldable pub guard_upstream :
      Readings
      → ClientRequest
      → GatewayProxy S D P Float64 L
      → Response
      → Bool
      → Served S D P Float64 L
  unfolding forward_request
  guard_upstream c r g w true = forward_request c r g w
  guard_upstream c r g w false =
      serve_entry g false (Store.get g.smart_cache (cache_key r)) w
        (respond_json (pos 503) unavailable_json w)

  unfoldable pub ask_breaker :
      Readings → ClientRequest → GatewayProxy S D P Float64 L → Response → Served S D P Float64 L
  unfolding guard_upstream
  ask_breaker c r g w =
      let (cb, (allowed, state)) = allow_request g.circuit_breaker c.allow_at in
      guard_upstream c r (with_answer state (record g { circuit_breaker = cb })) w allowed

  -- Step 7.
  unfoldable pub after_delay :
      Readings
      → ClientRequest
      → GatewayProxy S D P Float64 L
      → Response
      → Delay
      → Served S D P Float64 L
  unfolding ask_breaker
  after_delay c r g w panics = record { gateway = g; response = none; forwarded = false }
  after_delay c r g w _ = ask_breaker c r g w

  abbrev pub simulate_jitter :
      Readings → ClientRequest → GatewayProxy S D P Float64 L → Response → Served S D P Float64 L
  simulate_jitter c r g w =
      let jitter = g.config.cfg.upstream.jitter in
      after_delay c r g w
        (jitter_delay (is_jitter_active g.jitter_override jitter.enabled) jitter c.roll c.intn)
