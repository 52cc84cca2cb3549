-- ===== src/Chaos/Target.antt =====
-- The gateway of Proxy as what a client talks to: its middleware and its handler, with one turn of
-- readings for each call. A handler that panics closes the connection, which the client sees as an error.
use aegis_pulse.Base.{ℕ, [], ℤ}
use aegis_pulse.Middleware.{CorsConfig, cors_header, serve_http}
use aegis_pulse.Proxy.{
  GatewayProxy, Served, Response, empty_response, ClientRequest, Readings, AdminReadings, World,
}
use aegis_pulse.Chaos.Drills.{Client}

-- What the gateway reads while it serves one call.
pub record Turn : Type 0 where
  pub uptime : ℤ
  pub admin : AdminReadings
  pub readings : Readings

-- The response that the middleware hands to the handler, for a client that is no browser.
abbrev pub fresh : CorsConfig → Response
fresh cfg = empty_response (cors_header cfg [] [])

module _ {S D P Float64 L : Type 0} (env : World S D P Float64 L) (cfg : CorsConfig)
    (turn : ℕ → Turn) where
  abbrev pub serve_call : ℕ → GatewayProxy S D P Float64 L → ClientRequest → Served S D P Float64 L
  serve_call n g r =
      serve_http env cfg [] (turn n).uptime (turn n).admin (turn n).readings r g (empty_response [])

  abbrev pub gateway_client : Client (GatewayProxy S D P Float64 L)
  gateway_client = record {
    perform = λ n g r. ((serve_call n g r).gateway, (serve_call n g r).response);
  }
