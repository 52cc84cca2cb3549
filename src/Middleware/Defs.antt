-- ===== src/Middleware/Defs.antt =====
-- CORSMiddleware: the definitions. An origin that is absent is the empty text.
use aegis_pulse.Base.{
  Bool, true, false, some, List, [], ◌∷◌, ◌++◌, String, str_eq, if◌then◌else◌, ℤ, pos, Text, codes,
  text_eq, to_lower, print_int, map,
}
use aegis_pulse.Http
use aegis_pulse.Http.{Header}
use aegis_pulse.Proxy.{
  Response, write_header, World, GatewayProxy, Served, Readings, AdminReadings, ClientRequest,
  serve_internal,
}

pub record CorsConfig : Type 0 where
  pub allowed_origins : List Text
  pub allowed_methods : List Text
  pub allowed_headers : List Text
  pub exposed_headers : List Text
  pub max_age : ℤ
  pub allow_credentials : Bool
  pub security_headers : Bool

unfoldable pub default_cors_config : CorsConfig
default_cors_config = record {
  allowed_origins = codes "*" ∷ [];
  allowed_methods =
      codes "GET"
      ∷ codes "POST"
      ∷ codes "PUT"
      ∷ codes "PATCH"
      ∷ codes "DELETE"
      ∷ codes "OPTIONS"
      ∷ [];
  allowed_headers =
      codes "Authorization"
      ∷ codes "Content-Type"
      ∷ codes "Accept"
      ∷ codes "Origin"
      ∷ codes "X-API-Key"
      ∷ codes "X-Aegis-Signature"
      ∷ codes "traceparent"
      ∷ [];
  exposed_headers =
      codes "X-RateLimit-Limit"
      ∷ codes "X-RateLimit-Remaining"
      ∷ codes "X-RateLimit-Burst-Limit"
      ∷ codes "X-RateLimit-Burst-Remaining"
      ∷ codes "X-RateLimit-Status"
      ∷ codes "X-Cache-Status"
      ∷ codes "X-Aegis-Trace-ID"
      ∷ [];
  max_age = pos 86400;
  allow_credentials = false;
  security_headers = true;
}

abbrev or_default : List Text → List Text → List Text
or_default [] default = default
or_default (t ∷ ts) default = t ∷ ts

unfoldable pub new_cors_middleware : CorsConfig → CorsConfig
new_cors_middleware cfg = record cfg {
  allowed_origins = or_default cfg.allowed_origins (codes "*" ∷ []);
  allowed_methods = or_default cfg.allowed_methods (
      codes "GET"
      ∷ codes "POST"
      ∷ codes "PUT"
      ∷ codes "PATCH"
      ∷ codes "DELETE"
      ∷ codes "OPTIONS"
      ∷ []);
}

-- strings.Join(parts, ", ")
unfoldable pub join_comma : List Text → Text
join_comma [] = []
join_comma (p ∷ []) = p
join_comma (p ∷ q ∷ ps) = p ++ codes ", " ++ join_comma (q ∷ ps)

abbrev pub add_security_headers : Header → Header
add_security_headers h = Http.set "Referrer-Policy" (codes "strict-origin-when-cross-origin") (
    Http.set "X-XSS-Protection" (codes "1; mode=block") (
      Http.set "X-Frame-Options" (codes "SAMEORIGIN")
        (Http.set "X-Content-Type-Options" (codes "nosniff") h)))

-- strings.EqualFold on letters below 128
abbrev pub equal_fold : Text → Text → Bool
equal_fold s t = text_eq (map to_lower s) (map to_lower t)

abbrev pub allow_origin : CorsConfig → Text → Header → Header
allow_origin cfg origin h =
    let named = Http.set "Access-Control-Allow-Origin" origin h in
    let marked =
      if cfg.allow_credentials
      then Http.set "Access-Control-Allow-Credentials" (codes "true") named
      else named in
    Http.add "Vary" (codes "Origin") marked

-- The loop over the allowed origins, which ends at the first that matches, and whether one does.
unfoldable pub resolve_origin : CorsConfig → Text → Header → List Text → Header × Bool
resolve_origin cfg origin h [] = (h, false)
resolve_origin cfg origin h (o ∷ os) =
    let rest = resolve_origin cfg origin h os in
    if text_eq o (codes "*")
    then (Http.set "Access-Control-Allow-Origin" (codes "*") h, true)
    else if equal_fold o origin
    then (allow_origin cfg origin h, true)
    else rest

abbrev expose : CorsConfig → Header × Bool → Header
expose cfg (h, matched) =
    if matched
    then Http.set "Access-Control-Expose-Headers" (join_comma cfg.exposed_headers) h
    else h

-- The headers that every response gets.
unfoldable pub cors_header : CorsConfig → Text → Header → Header
unfolding resolve_origin
cors_header cfg origin h =
    let secured = if cfg.security_headers then add_security_headers h else h in
    if text_eq origin []
    then secured
    else expose cfg (resolve_origin cfg origin secured cfg.allowed_origins)

abbrev pub preflight : CorsConfig → Header → Header
preflight cfg h = Http.set "Access-Control-Max-Age" (print_int cfg.max_age) (
    Http.set "Access-Control-Allow-Headers" (join_comma cfg.allowed_headers)
      (Http.set "Access-Control-Allow-Methods" (join_comma cfg.allowed_methods) h))

-- The response, and whether the next handler is called for it.
unfoldable pub wrap : CorsConfig → String → Text → Response → Response × Bool
unfolding cors_header
wrap cfg method origin w =
    let h = cors_header cfg origin w.header in
    if str_eq method "OPTIONS"
    then (write_header (pos 204) (record w { header = preflight cfg h }), false)
    else (record w { header = h }, true)

-- `ServeHTTP` of GatewayProxy, with the middleware that NewGatewayProxy gives it.
unfoldable pub serve_http :
    {S D P Float64 L : Type 0}
    → World S D P Float64 L
    → CorsConfig
    → Text
    → ℤ
    → AdminReadings
    → Readings
    → ClientRequest
    → GatewayProxy S D P Float64 L
    → Response
    → Served S D P Float64 L
unfolding wrap
serve_http env cfg origin uptime a c r g w =
    let (w', goes_on) = wrap cfg r.method origin w in
    if goes_on
    then serve_internal env uptime a c r g w'
    else record { gateway = g; response = some w'; forwarded = false }
