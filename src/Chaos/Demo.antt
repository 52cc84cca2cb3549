-- ===== src/Chaos/Demo.antt =====
-- run60SecondDemo of cmd/chaos/main.go, over any client, and what it leaves of a gateway.
use aegis_pulse.Base.{
  ℕ, zero, suc, ◌+◌, ◌≡◌, true, false, Bool, Option, none, some, List, [], ◌∷◌, ◌++◌, String,
  if◌then◌else◌, ℤ, pos, sub64, Text, codes, strip_prefix, text_eq,
}
use aegis_pulse.Cache.Breaker.{set_emergency_cutoff}
use aegis_pulse.Crypto.Signature.{generate_signature}
use aegis_pulse.Http
use aegis_pulse.Middleware.{CorsConfig, serve_http}
use aegis_pulse.Proxy.{
  Body, Response, no_body, bytes, ClientRequest, GatewayProxy, World, serve_internal, trim_slash,
  cut_off,
}
use aegis_pulse.Chaos.Drills.{Client, status_of, resource_request}
use aegis_pulse.Chaos.Target.{Turn, serve_call, gateway_client}

abbrev free_key : String
free_key = "aegis_live_free_key_1001"

abbrev pro_key : String
pro_key = "aegis_live_pro_key_2002"

abbrev pub health_request : ClientRequest
health_request = record {
  method = "GET";
  path = "/healthz";
  request_uri = "/healthz";
  api_key = "";
  signature = [];
  body = no_body;
}

abbrev fraud_body : Text
fraud_body = codes "{\"action\":\"fraudulent_credit_transfer\",\"amount\":50000}"

-- Signed ten minutes ago.
abbrev pub fraud_request : (Text → Text → List ℕ) → ℤ → ClientRequest
fraud_request hmac now = record {
  method = "POST";
  path = "/api/transfer";
  request_uri = "/api/transfer";
  api_key = pro_key;
  signature = generate_signature hmac fraud_body (codes pro_key) (sub64 now (pos 600));
  body = bytes fraud_body;
}

abbrev pub cutoff_request : Bool → ClientRequest
cutoff_request cutoff = record {
  method = "POST";
  path = "/api/v1/panic/emergency-cutoff";
  request_uri = "/api/v1/panic/emergency-cutoff";
  api_key = "";
  signature = [];
  body = bytes (if cutoff then codes "{\"cutoff\":true}" else codes "{\"cutoff\":false}");
}

-- The status of an answer and one of its headers, as they are printed; nothing is printed of an error.
abbrev shown : String → Option Response → Option (ℤ × Text)
shown name none = none
shown name (some w) = some (status_of w, Http.get name w.header)

abbrev status_only : Option Response → Option ℤ
status_only none = none
status_only (some w) = some (status_of w)

-- What the demo prints.
pub record DemoEnd : Type 0 where
  pub health : List Body
  pub traffic : List (Option (ℤ × Text))
  pub replay : Option ℤ
  pub fallback : Option (ℤ × Text)

module _ {G : Type 0} (client : Client G) where
  -- `n` requests with the free key, from call `i` on.
  unfoldable pub fire : ℕ → ℕ → G → G × List (Option (ℤ × Text))
  fire zero i g = (g, [])
  fire (suc n) i g =
      let (g', answer) = client.perform i g (resource_request free_key) in
      let (g'', rest) = fire n (i + 1) g' in (g'', shown "X-RateLimit-Status" answer ∷ rest)

  -- The sixth phase: the cache is primed, the upstream cut off, the answer shown, the cutoff ended.
  unfoldable pub drill_fallback : G → G × Option (ℤ × Text)
  drill_fallback g0 =
      let g1 = (client.perform 30 g0 (resource_request pro_key)).0 in
      let g2 = (client.perform 31 g1 (cutoff_request true)).0 in
      let (g3, answer) = client.perform 32 g2 (resource_request pro_key) in
      let g4 = (client.perform 33 g3 (cutoff_request false)).0 in
      (g4, shown "X-Cache-Status" answer)

  abbrev after_health : (Text → Text → List ℕ) → ℤ → G × Option Response → G × Option DemoEnd
  after_health hmac now (g, none) = (g, none)
  after_health hmac now (g0, some w) =
      let (g1, low) = fire 5 1 g0 in
      let (g2, middle) = fire 17 6 g1 in
      let (g3, high) = fire 6 23 g2 in
      let (g4, fraud) = client.perform 29 g3 (fraud_request hmac now) in
      let (g5, fallback) = drill_fallback g4 in
      (
        g5,
        some (record {
          health = w.body;
          traffic = low ++ middle ++ high;
          replay = status_only fraud;
          fallback = fallback;
        }),
      )

  -- `none` is the end by a health check that fails.
  unfoldable pub run_demo : (Text → Text → List ℕ) → ℤ → G → G × Option DemoEnd
  unfolding fire drill_fallback
  run_demo hmac now g = after_health hmac now (client.perform 0 g health_request)

module _ {S D P Float64 L : Type 0} (env : World S D P Float64 L) (cfg : CorsConfig)
    (turn : ℕ → Turn) where
  serve_call-cutoff :
      (n : ℕ) (g : GatewayProxy S D P Float64 L) (cutoff : Bool)
      → (env.decode (cutoff_request cutoff)).cutoff ≡ cutoff
      → (serve_call env cfg turn n g (cutoff_request cutoff)
          ).gateway.circuit_breaker.emergency_cutoff
        ≡ cutoff
  unfolding serve_http serve_internal strip_prefix trim_slash text_eq cut_off set_emergency_cutoff
  serve_call-cutoff n g cutoff decoded = decoded

  -- The drill of the fallback ends the cutoff that it began, whatever its calls meet on the way.
  pub drill_fallback-ends_cutoff :
      (g : GatewayProxy S D P Float64 L)
      → (env.decode (cutoff_request false)).cutoff ≡ false
      → (drill_fallback (gateway_client env cfg turn) g).0.circuit_breaker.emergency_cutoff ≡ false
  unfolding drill_fallback
  drill_fallback-ends_cutoff g decoded = serve_call-cutoff 33 _ false decoded
