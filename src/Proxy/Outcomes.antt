-- ===== src/Proxy/Outcomes.antt =====
-- What a forwarded request leaves behind, and which requests are never forwarded.
use aegis_pulse.Base.{
  ◌≡◌, ◌⊎◌, refl, Bool, true, false, ◌&&◌, ◌||◌, Option, none, some, List, ℤ, pos, leb_ℤ, ltb_ℤ,
  lookup-insert_self, Text, codes, arith,
}
use aegis_pulse.Clock.{Time}
use aegis_pulse.Cache.Breaker.{half_open, opened, CircuitBreaker, allow_request}
use aegis_pulse.Cache.Breaker.Probing.{count_allowed, lost_probe_locks}
use aegis_pulse.Cache.Store
use aegis_pulse.Cache.Store.{CacheEntry}
use aegis_pulse.Proxy.Recorder.{
  ResponseRecorder, new_response_recorder, Response, serve_cached_response,
}
use aegis_pulse.Proxy.Defs.{GatewayProxy, ClientRequest, Readings, World, Served}
use aegis_pulse.Proxy.Pipeline.{
  cache_key, complete, forward_request, guard_upstream, ask_breaker, serve_entry,
}

client_error_bounds :
    (s : ℤ)
    → leb_ℤ (pos 400) s ≡ true
    → ltb_ℤ s (pos 500) ≡ true
    → ((leb_ℤ (pos 200) s && ltb_ℤ s (pos 400)) ≡ false) × (leb_ℤ (pos 500) s ≡ false)
client_error_bounds s low high = (ground arith, ground arith)

module _ {S D P Float64 L : Type 0} (env : World S D P Float64 L) where
  -- The two collaborators that an outcome changes.
  abbrev pub Leaves : Served S D P Float64 L → GatewayProxy S D P Float64 L → Type 0
  Leaves s g =
      (s.gateway.circuit_breaker ≡ g.circuit_breaker) × (s.gateway.smart_cache ≡ g.smart_cache)

  pub serve_entry-Leaves :
      (g : GatewayProxy S D P Float64 L) (forwarded : Bool) (entry : Option CacheEntry)
      (w otherwise : Response)
      → Leaves (serve_entry env g forwarded entry w otherwise) g
  serve_entry-Leaves g forwarded none w otherwise = (refl, refl)
  serve_entry-Leaves g forwarded (some entry) w otherwise = (refl, refl)

  -- An outcome that counts against the upstream: an error, a 5xx status or a slow answer.
  abbrev pub is_failure :
      Readings → ResponseRecorder → GatewayProxy S D P Float64 L → Option Text → Bool
  is_failure c rec g (some err) = true
  is_failure c rec g none =
      leb_ℤ (pos 500) rec.status_code || leb_ℤ g.circuit_breaker.latency_threshold c.latency

  abbrev pub is_success : ResponseRecorder → Bool
  is_success rec = leb_ℤ (pos 200) rec.status_code && ltb_ℤ rec.status_code (pos 400)

  -- A 2xx or 3xx answer that is not slow is what the next request with the same method and URI
  -- gets when the upstream cannot be reached for it: the response is that of a cached entry with
  -- the answer's status, headers and body.
  pub complete-serves_stale :
      (c c' : Readings) (r r' : ClientRequest) (rec rec' : ResponseRecorder)
      (g : GatewayProxy S D P Float64 L) (w w' : Response) (err : Text)
      → is_failure c rec g none ≡ false
      → is_success rec ≡ true
      → cache_key r' ≡ cache_key r
      → (entry : CacheEntry) × ((complete env c' r' rec'
            (complete env c r rec g w none).gateway
            w'
            (some err)).response
          ≡ some (serve_cached_response entry (codes "STALE-FALLBACK") w'))
        × (entry.status_code ≡ rec.status_code)
        × (entry.header ≡ rec.header_map)
        × (entry.body ≡ rec.body)
  unfolding complete Store.get Store.set
  complete-serves_stale c c' r r' rec rec' g w w' err fine good same =
      rw (fine, good, same, lookup-insert_self) (_, refl, refl, refl, refl)

  allow_request-threshold :
      (cb : CircuitBreaker) (now : Time)
      → (allow_request cb now).0.latency_threshold ≡ cb.latency_threshold
  unfolding allow_request
  allow_request-threshold cb now = ground arith

  allow_request-leaves_probe :
      (cb : CircuitBreaker) (now : Time)
      → (cb.state ≡ opened) ⊎ (cb.state ≡ half_open)
      → (allow_request cb now).1.0 ≡ true
      → ((allow_request cb now).0.state ≡ half_open)
        × ((allow_request cb now).0.half_open_probing ≡ true)
  unfolding allow_request
  allow_request-leaves_probe cb now h passed = ground arith

  -- A probe that the upstream answers with a 4xx status, and in time, locks the gateway out: the
  -- breaker was open or half open and lets the request through, and after it denies every request,
  -- at every time.
  pub client_error_locks_out :
      (c : Readings) (r : ClientRequest) (g : GatewayProxy S D P Float64 L) (w : Response)
      (times : List Time)
      → (g.circuit_breaker.state ≡ opened) ⊎ (g.circuit_breaker.state ≡ half_open)
      → (allow_request g.circuit_breaker c.allow_at).1.0 ≡ true
      → (env.forward r new_response_recorder).proxy_error ≡ none
      → leb_ℤ (pos 400) (env.forward r new_response_recorder).status_code ≡ true
      → ltb_ℤ (env.forward r new_response_recorder).status_code (pos 500) ≡ true
      → leb_ℤ g.circuit_breaker.latency_threshold c.latency ≡ false
      → count_allowed (ask_breaker env c r g w).gateway.circuit_breaker times ≡ 0
  unfolding ask_breaker guard_upstream forward_request complete
  client_error_locks_out c r g w times h passed answered low high quick =
      let (state, probe) = allow_request-leaves_probe g.circuit_breaker c.allow_at h passed in
      let (no_success, no_error) = client_error_bounds _ low high in
      rw (passed, answered, allow_request-threshold, quick, no_success, no_error)
        (lost_probe_locks (allow_request g.circuit_breaker c.allow_at).0 times state probe)
