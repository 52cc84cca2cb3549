-- ===== src/Mocks/Faults.antt =====
-- What requests to the fault endpoint of the mock upstream do to the breaker of a gateway.
use aegis_pulse.Base.{
  ℕ, map, ◌+◌, ◌≡◌, ◌≤◌, ◌<◌, refl, sym, ap, ◌∙◌, subst, true, false, none, List, [], ◌∷◌, ℤ, pos,
  ltb, two63, if◌then◌else◌, arith, String,
}
use aegis_pulse.Clock.{Time, Duration}
use aegis_pulse.Cache.Breaker.{CircuitBreaker, closed, opened, allow_request, record_failure}
use aegis_pulse.Cache.Breaker.Recovery.{fail_all, length_of, AreFast, fail_below, fail_all-trips}
use aegis_pulse.Proxy.{
  GatewayProxy, new_response_recorder, Response, no_body, ClientRequest, Readings, World,
  ask_breaker, complete, forward_request,
}
use aegis_pulse.Proxy.Outcomes.{serve_entry-Leaves}
use aegis_pulse.Mocks.Upstream.{upstream_answer}

-- A request for the fault endpoint.
abbrev pub fault_request : String → ClientRequest
fault_request key = record {
  method = "GET";
  path = "/api/fault";
  request_uri = "/api/fault";
  api_key = key;
  signature = [];
  body = no_body;
}

-- A mutation of the breaker by a failure does not touch the cutoff.
record_failure-cutoff :
    (cb : CircuitBreaker) (latency : Duration) (now : Time)
    → (record_failure cb latency now).emergency_cutoff ≡ cb.emergency_cutoff
unfolding record_failure
record_failure-cutoff cb latency now = ground arith

allow_request-calm :
    (cb : CircuitBreaker) (now : Time)
    → cb.state ≡ closed
    → cb.emergency_cutoff ≡ false
    → ((allow_request cb now).0 ≡ cb) × ((allow_request cb now).1.0 ≡ true)
unfolding allow_request
allow_request-calm cb now shut calm = (rw (calm, shut) refl, rw (calm, shut) refl)

module _ {S D P Float64 L : Type 0} (env : World S D P Float64 L) where
  -- The reverse proxy reaches the mock upstream: it writes the status of its answer to the recorder, and
  -- no error.
  pub record IsReached (now : ℤ) : Type 0 where
    pub status :
        (r : ClientRequest)
        → (env.forward r new_response_recorder).status_code ≡ (upstream_answer now r).status_code
    pub error : (r : ClientRequest) → (env.forward r new_response_recorder).proxy_error ≡ none

  -- The last steps of a request for the fault endpoint, once for each reading.
  unfoldable pub ask_for_faults :
      String
      → Response
      → List Readings
      → GatewayProxy S D P Float64 L
      → GatewayProxy S D P Float64 L
  ask_for_faults key w [] g = g
  ask_for_faults key w (c ∷ cs) g =
      ask_for_faults key w cs (ask_breaker env c (fault_request key) g w).gateway

  ask_breaker-fault :
      (now : ℤ) (c : Readings) (key : String) (w : Response) (g : GatewayProxy S D P Float64 L)
      → IsReached now
      → g.circuit_breaker.state ≡ closed
      → g.circuit_breaker.emergency_cutoff ≡ false
      → (ask_breaker env c (fault_request key) g w).gateway.circuit_breaker
        ≡ record_failure g.circuit_breaker c.latency c.settled_at
  unfolding ask_breaker forward_request complete
  ask_breaker-fault now c key w g reached shut calm =
      let (same, passed) = allow_request-calm g.circuit_breaker c.allow_at shut calm in
      let code = reached.status (fault_request key) in
      let fine = reached.error (fault_request key) in
      rw (passed, same, fine, code) (serve_entry-Leaves env _ true _ w _).0

  abbrev pub failures : List Readings → List (Duration × Time)
  failures cs = map (λ c. (c.latency, c.settled_at)) cs

  ask_for_faults-fail_all :
      (now : ℤ) (cs : List Readings) (key : String) (w : Response)
      (g : GatewayProxy S D P Float64 L) (c n : ℕ)
      → IsReached now
      → g.circuit_breaker.state ≡ closed
      → g.circuit_breaker.emergency_cutoff ≡ false
      → g.circuit_breaker.consecutive_failures ≡ pos c
      → g.circuit_breaker.failure_threshold ≡ pos n
      → n < two63
      → c + length_of (failures cs) ≤ n
      → AreFast g.circuit_breaker.latency_threshold (failures cs)
      → (ask_for_faults key w cs g).circuit_breaker ≡ fail_all g.circuit_breaker (failures cs)
  unfolding ask_for_faults fail_all
  ask_for_faults-fail_all now [] key w g c n reached shut calm count limit fits le fast = refl
  ask_for_faults-fail_all now (r ∷ []) key w g c n reached shut calm count limit fits le fast =
      ask_breaker-fault now r key w g reached shut calm
  ask_for_faults-fail_all now (r ∷ r' ∷ cs) key w g c n reached shut calm count limit fits le fast =
      let one = ask_breaker-fault now r key w g reached shut calm in
      let (shut', count', limit', threshold') =
        fail_below g.circuit_breaker r.latency r.settled_at c n shut count limit fits (omega arith)
          fast.0 in
      let g' = (ask_breaker env r (fault_request key) g w).gateway in
      ask_for_faults-fail_all now (r' ∷ cs) key w g' (c + 1) n reached
        (ap (λ cb. cb.state) one ∙ shut')
        (ap (λ cb. cb.emergency_cutoff) one
          ∙ record_failure-cutoff g.circuit_breaker r.latency r.settled_at
          ∙ calm)
        (ap (λ cb. cb.consecutive_failures) one ∙ count')
        (ap (λ cb. cb.failure_threshold) one ∙ limit') fits (omega arith)
        (subst (λ d. AreFast d (failures (r' ∷ cs)))
          (sym (ap (λ cb. cb.latency_threshold) one ∙ threshold')) fast.1)
      ∙ ap (λ cb. fail_all cb (failures (r' ∷ cs))) one

  -- Requests for the fault endpoint of the mock upstream, which the reverse proxy reaches and which answer
  -- faster than the threshold: a gateway whose breaker is closed without a cutoff, with `c` failures
  -- below its threshold `n`, opens it with the request that makes `n`, and not before.
  pub ask_for_faults-trips :
      (now : ℤ) (cs : List Readings) (key : String) (w : Response)
      (g : GatewayProxy S D P Float64 L) (c n : ℕ)
      → IsReached now
      → g.circuit_breaker.state ≡ closed
      → g.circuit_breaker.emergency_cutoff ≡ false
      → g.circuit_breaker.consecutive_failures ≡ pos c
      → g.circuit_breaker.failure_threshold ≡ pos n
      → n < two63
      → c < n
      → c + length_of (failures cs) ≤ n
      → AreFast g.circuit_breaker.latency_threshold (failures cs)
      → (ask_for_faults key w cs g).circuit_breaker.state
        ≡ (if ltb (c + length_of (failures cs)) n then closed else opened)
  ask_for_faults-trips now cs key w g c n reached shut calm count limit fits below le fast =
      ap (λ cb. cb.state)
        (ask_for_faults-fail_all now cs key w g c n reached shut calm count limit fits le fast)
      ∙ fail_all-trips (failures cs) g.circuit_breaker c n shut count limit fits below le fast
