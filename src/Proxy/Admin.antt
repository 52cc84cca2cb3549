-- ===== src/Proxy/Admin.antt =====
-- `handleAdminAPI` of GatewayProxy, and `serveInternal`, which sends a request to it, to a page or to
-- the keyed pipeline.
use Prim.Native.String.{◌++◌ as concat}
use aegis_pulse.Base.{
  Bool, true, false, ◌&&◌, ◌||◌, Option, none, some, [], ◌∷◌, ◌++◌, String, str_eq, if◌then◌else◌,
  ◌==◌, ℤ, pos, Text, codes, text_eq, strip_prefix,
}
use aegis_pulse.Http
use aegis_pulse.Crypto.Signature.{generate_signature}
use aegis_pulse.Cache.Breaker.{get_state, state_text, set_emergency_cutoff}
use aegis_pulse.Storage.Redis.{RedisClient, freeze_key}
use aegis_pulse.Storage.Keys.{freeze_api_key, create_audit_log}
use aegis_pulse.Webhook.Delivery.{publish}
use aegis_pulse.Webhook.Dlq.{RetryError, list, re_sign_and_retry}
use aegis_pulse.Proxy.Recorder.{
  Body, Response, write, write_header, error_json, health_json, key_frozen_json, burst_frozen_json,
  cutoff_json, jitter_json, panic_status_json, retry_json, items_json, respond_json,
}
use aegis_pulse.Proxy.Jitter.{is_jitter_active, toggle_jitter}
use aegis_pulse.Proxy.Defs.{
  GatewayProxy, ClientRequest, Readings, AdminReadings, metrics_page, demo_page, swagger_page,
  World, Served,
}
use aegis_pulse.Proxy.Pipeline.{answered}
use aegis_pulse.Proxy.Admission.{serve_keyed}

abbrev is_some {ℓ} : {A : Type ℓ} → Option A → Bool
is_some none = false
is_some (some x) = true

-- strings.HasPrefix
abbrev pub has_prefix : String → Text → Bool
has_prefix p s = is_some (strip_prefix (codes p) s)

abbrev or_else : Text → Option Text → Text
or_else s none = s
or_else s (some rest) = rest

-- strings.TrimSuffix(s, "/")
unfoldable pub trim_slash : Text → Text
trim_slash [] = []
trim_slash (c ∷ []) = if c == b'/' then [] else c ∷ []
trim_slash (c ∷ d ∷ s) = c ∷ trim_slash (d ∷ s)

unfoldable pub clean_path : Text → Text
unfolding trim_slash
clean_path path = trim_slash (
    if has_prefix "/api/v1" path
    then or_else path (strip_prefix (codes "/api/v1") path)
    else or_else path (strip_prefix (codes "/api") path))

abbrev pub bool_text : Bool → Text
bool_text true = codes "true"
bool_text false = codes "false"

-- The paths that go to the administration API.
unfoldable pub is_admin_path : Text → Bool
is_admin_path path =
    has_prefix "/api/v1/panic/" path
    || has_prefix "/api/panic/" path
    || has_prefix "/api/v1/dlq" path
    || has_prefix "/api/dlq" path

module _ {S D P Float64 L : Type 0} (env : World S D P Float64 L) where
  abbrev pub sign_audit : Text → ℤ → Text
  sign_audit payload now = generate_signature env.hmac payload (codes "aegis_master_key") now

  -- The audit row and the event of a change, which carry one signature.
  abbrev pub announce :
      AdminReadings
      → String
      → Text
      → String
      → String
      → String
      → String
      → String
      → GatewayProxy S D P Float64 L
      → GatewayProxy S D P Float64 L
  announce c audit_type payload event_type api_key tier title description g = record g {
    repo =
        create_audit_log env.server env.database env.hash_key g.repo c.audit_id audit_type payload
          (sign_audit payload c.now_unix) c.audit_at;
    events =
        publish
          (record {
            event_id = c.event_id;
            event_type = event_type;
            api_key = api_key;
            tier = tier;
            timestamp = c.now_unix;
            title = title;
            description = description;
            channel = "#security-incidents";
            signature = sign_audit payload c.now_unix;
            metadata = [];
          })
          g.events;
  }

  abbrev freeze_client : Option (RedisClient S) → String → Option (RedisClient S)
  freeze_client none key = none
  freeze_client (some r) key =
      some (freeze_key env.server (freeze_key env.server r key).0 (env.hash_key key)).0

  abbrev pub freeze_everywhere :
      AdminReadings → String → GatewayProxy S D P Float64 L → GatewayProxy S D P Float64 L
  freeze_everywhere c key g =
      let repo = (freeze_api_key env.server env.database env.hash_key g.repo key c.frozen_at).0 in
      record g { repo = record repo { redis = freeze_client repo.redis key } }

  -- POST /panic/kill, with the key that the body names.
  unfoldable pub kill :
      AdminReadings
      → String
      → GatewayProxy S D P Float64 L
      → Response
      → GatewayProxy S D P Float64 L × Response
  kill c key g w =
      if str_eq key ""
      then (g, write (error_json "api_key is required") (write_header (pos 400) w))
      else (
        announce c "KILL_SWITCH_ACTIVATED"
            (codes "{\"action\":\"KILL_SWITCH\",\"target_key\":\""
              ++ codes key
              ++ codes "\",\"operator\":\"admin\"}")
            "KILL_SWITCH" key "SYSTEM" "Emergency API Key Kill-Switch Activated"
            (concat "API Key "
              (concat key " has been frozen platform-wide due to suspected compromise."))
            (freeze_everywhere c key g),
        write (key_frozen_json key) w,
      )

  -- POST /panic/burst-freeze
  unfoldable pub freeze_bursts :
      AdminReadings
      → Bool
      → GatewayProxy S D P Float64 L
      → Response
      → GatewayProxy S D P Float64 L × Response
  freeze_bursts c frozen g w = (
    announce c "GLOBAL_BURST_FREEZE"
        (codes "{\"action\":\"BURST_FREEZE\",\"frozen\":" ++ bool_text frozen ++ codes "}")
        "SECURITY_INCIDENT" "SYSTEM" "GLOBAL" "GLOBAL BURST FREEZE TOGGLED"
        (if frozen
          then "Global burst freeze state set to true"
          else "Global burst freeze state set to false")
        (record g { limiter = env.limiter.set_global_burst_freeze frozen g.limiter }),
    write (burst_frozen_json frozen) w,
  )

  -- POST /panic/emergency-cutoff
  unfoldable pub cut_off :
      AdminReadings
      → Bool
      → GatewayProxy S D P Float64 L
      → Response
      → GatewayProxy S D P Float64 L × Response
  cut_off c cutoff g w = (
    announce c "EMERGENCY_UPSTREAM_CUTOFF"
        (codes "{\"action\":\"EMERGENCY_UPSTREAM_CUTOFF\",\"cutoff\":"
          ++ bool_text cutoff
          ++ codes "}")
        "SECURITY_INCIDENT" "SYSTEM" "GATEWAY" "EMERGENCY UPSTREAM CUTOFF TOGGLED"
        (if cutoff
          then "Emergency cutoff state set to true"
          else "Emergency cutoff state set to false")
        (record g { circuit_breaker = set_emergency_cutoff cutoff g.circuit_breaker }),
    write (cutoff_json cutoff) w,
  )

  abbrev jitter_enabled : GatewayProxy S D P Float64 L → Bool
  jitter_enabled g = g.config.cfg.upstream.jitter.enabled

  -- POST /panic/jitter: a setting, or a toggle where the body has none.
  unfoldable pub switch_jitter :
      Option Bool
      → GatewayProxy S D P Float64 L
      → Response
      → GatewayProxy S D P Float64 L × Response
  switch_jitter (some enabled) g w = (
    record g { jitter_override = if enabled then pos 1 else pos 0 },
    write (jitter_json enabled) w,
  )
  switch_jitter none g w =
      let (override, active) = toggle_jitter g.jitter_override (jitter_enabled g) in
      (record g { jitter_override = override }, write (jitter_json active) w)

  abbrev panic_status : GatewayProxy S D P Float64 L → Body
  panic_status g =
      panic_status_json (state_text (get_state g.circuit_breaker))
        g.circuit_breaker.emergency_cutoff (env.limiter.is_global_burst_frozen g.limiter)
        (is_jitter_active g.jitter_override (jitter_enabled g))

  abbrev retry_answer : Option RetryError → Response → Response
  retry_answer none w = write (retry_json none) w
  retry_answer (some e) w = write (retry_json (some e)) (write_header (pos 500) w)

  -- POST /dlq/retry
  unfoldable pub retry_dlq :
      AdminReadings
      → String
      → GatewayProxy S D P Float64 L
      → Response
      → GatewayProxy S D P Float64 L × Response
  retry_dlq c id g w =
      let (dlq, err) = re_sign_and_retry env.hmac env.marshal env.send id c.now_unix g.dlq in
      (record g { dlq = dlq }, retry_answer err w)

  abbrev is_route : String → String → ClientRequest → Bool
  is_route path method r =
      text_eq (clean_path (codes r.path)) (codes path) && str_eq r.method method

  unfoldable pub handle_admin_api :
      AdminReadings
      → ClientRequest
      → GatewayProxy S D P Float64 L
      → Response
      → GatewayProxy S D P Float64 L × Response
  unfolding clean_path
  handle_admin_api c r g w0 =
      let w = record w0 { header = Http.set "Content-Type" (codes "application/json") w0.header } in
      let body = env.decode r in
      if is_route "/panic/kill" "POST" r
      then kill c body.api_key g w
      else if is_route "/panic/burst-freeze" "POST" r
      then freeze_bursts c body.frozen g w
      else if is_route "/panic/emergency-cutoff" "POST" r
      then cut_off c body.cutoff g w
      else if is_route "/panic/jitter" "POST" r
      then switch_jitter body.enabled g w
      else if is_route "/panic/status" "GET" r
      then (g, write (panic_status g) w)
      else if is_route "/dlq/retry" "POST" r
      then retry_dlq c body.dlq_id g w
      else if is_route "/dlq" "GET" r
      then (g, write (items_json (list g.dlq)) w)
      else (g, write (error_json "not found") (write_header (pos 404) w))

  abbrev handled : GatewayProxy S D P Float64 L × Response → Served S D P Float64 L
  handled (g, w) = answered env g false w

  -- `uptime` is the number of seconds since the start.
  unfoldable pub serve_internal :
      ℤ
      → AdminReadings
      → Readings
      → ClientRequest
      → GatewayProxy S D P Float64 L
      → Response
      → Served S D P Float64 L
  unfolding is_admin_path handle_admin_api
  serve_internal uptime a c r g w =
      if str_eq r.path "/healthz"
      then answered env g false
          (respond_json (pos 200) (health_json uptime (state_text (get_state g.circuit_breaker))) w)
      else if str_eq r.path "/metrics"
      then answered env g false (env.page metrics_page r w)
      else if str_eq r.path "/demo" || has_prefix "/demo/" (codes r.path)
      then answered env g false (env.page demo_page r w)
      else if str_eq r.path "/docs" || has_prefix "/docs/" (codes r.path)
      then answered env g false (env.page swagger_page r w)
      else if is_admin_path (codes r.path)
      then handled (handle_admin_api a r g w)
      else serve_keyed env c r g w
