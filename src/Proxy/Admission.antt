-- ===== src/Proxy/Admission.antt =====
-- `serveInternal` of GatewayProxy, from the authentication to the rate limiter: steps 4 to 6.
use Prim.Native.String.{◌++◌}
use aegis_pulse.Base.{
  Bool, true, false, Option, none, some, [], ◌∷◌, String, str_eq, if◌then◌else◌, ℤ, pos, add64,
  Text, codes, text_eq, lower,
}
use aegis_pulse.Config.{get_tier}
use aegis_pulse.Config.Types.{TierConfig}
use aegis_pulse.Crypto.Signature.{SignatureError, verify_signature}
use aegis_pulse.RateLimit.Result.{
  Status, RateLimitResult, burst, blocked, burst_frozen, apply_headers,
}
use aegis_pulse.Storage.Redis.{RedisClient, is_key_frozen}
use aegis_pulse.Storage.Keys.{
  Found, found, refused, key_frozen, get_api_key, record_billing_overage,
}
use aegis_pulse.Webhook.Delivery.{publish}
use aegis_pulse.Metrics.{record_request, record_burst_overage, record_replay_blocked, set_revenue}
use aegis_pulse.Proxy.Recorder.{Response, error_json, rejected_json, limited_json, respond_json}
use aegis_pulse.Proxy.Defs.{
  GatewayProxy, RequestBody, no_body, unreadable, bytes, ClientRequest, Readings, World, Served,
}
use aegis_pulse.Proxy.Pipeline.{simulate_jitter, answered}

-- The tier of a key whose tier is not configured.
abbrev pub tier_or_default : Option TierConfig → TierConfig
tier_or_default none = record {
  soft_limit = pos 20;
  hard_limit = pos 25;
  window_seconds = pos 60;
  replay_window_seconds = pos 60;
}
tier_or_default (some t) = t

abbrev pub is_refused : Status → Bool
is_refused blocked = true
is_refused burst_frozen = true
is_refused _ = false

abbrev pub is_burst : Status → Bool
is_burst burst = true
is_burst _ = false

-- Redis is not in use.
abbrev is_local : {S : Type 0} → Option (RedisClient S) → Bool
is_local none = true
is_local (some r) = elim r.client [ none ↦ true | some s ↦ false ]

module _ {S D P Float64 L : Type 0} (env : World S D P Float64 L) where
  -- The event of a request in the burst range, where Redis does not publish it.
  abbrev publish_burst :
      Readings
      → ClientRequest
      → String
      → ℤ
      → Float64
      → GatewayProxy S D P Float64 L
      → GatewayProxy S D P Float64 L
  publish_burst c r tier units revenue g =
      if is_local g.repo.redis
      then record g {
        events =
            publish
              (record {
                event_id = c.event_id;
                event_type = "BURST_OVERAGE";
                api_key = r.api_key;
                tier = tier;
                timestamp = c.burst_at;
                title = "Burst Overage: Tier " ++ tier;
                description =
                    "API Key "
                    ++ (r.api_key
                        ++ (" entered burst capacity. Total overage units: "
                            ++ (env.format_int units ++ ".")));
                channel = "";
                signature = [];
                metadata =
                    ("CostPerCredit", env.format_float g.config.cfg.monetization.cost_per_credit)
                    ∷ ("TotalRevenue", env.format_float revenue ++ " USD")
                    ∷ [];
              })
              g.events;
      }
      else g

  -- What a request in the burst range adds: the overage metric, the revenue and the bill.
  unfoldable pub bill_burst :
      Readings
      → ClientRequest
      → String
      → GatewayProxy S D P Float64 L
      → GatewayProxy S D P Float64 L
  bill_burst c r tier g =
      let units = env.limiter.get_overage_units r.api_key g.limiter in
      let revenue = env.revenue units g.config.cfg.monetization.cost_per_credit in
      let billed =
        record_billing_overage env.server env.database env.hash_key g.repo r.api_key c.month units
          revenue in
      publish_burst c r tier units revenue (record g {
        metrics =
            set_revenue env.prom revenue
              (record_burst_overage env.prom (codes tier) (codes r.api_key) g.metrics);
        repo = billed.0;
      })

  abbrev pub charge :
      Readings
      → ClientRequest
      → String
      → Status
      → GatewayProxy S D P Float64 L
      → GatewayProxy S D P Float64 L
  charge c r tier status g = if is_burst status then bill_burst c r tier g else g

  -- Step 6 once the limiter has answered.
  unfoldable pub after_limiter :
      Readings
      → ClientRequest
      → String
      → TierConfig
      → GatewayProxy S D P Float64 L
      → Response
      → RateLimitResult
      → Served S D P Float64 L
  unfolding bill_burst
  after_limiter c r tier cfg g w res =
      let h = record w { header = apply_headers res w.header } in
      let counted = record g {
        metrics = record_request env.prom (codes tier) res.status g.metrics;
      } in
      if is_refused res.status
      then answered env counted false (
          respond_json (pos 429)
            (limited_json res.status res.limit (add64 res.limit res.burst_limit) cfg.window_seconds)
            h)
      else simulate_jitter env c r (charge c r tier res.status counted) h

  abbrev pub limit_rate :
      Readings
      → ClientRequest
      → String
      → TierConfig
      → GatewayProxy S D P Float64 L
      → Response
      → Served S D P Float64 L
  limit_rate c r tier cfg g w =
      let (limiter, res) = env.limiter.check g.limiter (record {
        api_key = r.api_key;
        tier = tier;
        soft_limit = cfg.soft_limit;
        hard_limit = cfg.hard_limit;
        window_sec = cfg.window_seconds;
        now = c.check_at;
      }) in
      after_limiter c r tier cfg (record g { limiter = limiter }) w res

  -- Step 5: the result of the check of the signature.
  unfoldable pub after_signature :
      Readings
      → ClientRequest
      → String
      → TierConfig
      → GatewayProxy S D P Float64 L
      → Response
      → Option SignatureError
      → Served S D P Float64 L
  unfolding after_limiter
  after_signature c r tier cfg g w none = limit_rate c r tier cfg g w
  after_signature c r tier cfg g w (some e) =
      answered env (record g { metrics = record_replay_blocked env.prom (codes tier) g.metrics })
        false (respond_json (pos 401) (rejected_json e) w)

  abbrev pub check_body : Readings → ClientRequest → TierConfig → Text → Option SignatureError
  check_body c r cfg body =
      verify_signature env.hmac body r.signature (codes r.api_key) cfg.replay_window_seconds
        c.verify_at c.verify_again

  abbrev pub verify_body :
      Readings
      → ClientRequest
      → String
      → TierConfig
      → GatewayProxy S D P Float64 L
      → Response
      → RequestBody
      → Served S D P Float64 L
  verify_body c r tier cfg g w unreadable =
      answered env g false (respond_json (pos 400) (error_json "failed to read body") w)
  verify_body c r tier cfg g w no_body = after_signature c r tier cfg g w (check_body c r cfg [])
  verify_body c r tier cfg g w (bytes body) =
      after_signature c r tier cfg g w (check_body c r cfg body)

  abbrev pub check_signature :
      Readings
      → ClientRequest
      → String
      → TierConfig
      → GatewayProxy S D P Float64 L
      → Response
      → Served S D P Float64 L
  check_signature c r tier cfg g w =
      if text_eq r.signature []
      then limit_rate c r tier cfg g w
      else verify_body c r tier cfg g w r.body

  -- Step 4: the repository's answer.
  unfoldable pub after_key :
      Readings
      → ClientRequest
      → GatewayProxy S D P Float64 L
      → Response
      → Found
      → Served S D P Float64 L
  unfolding after_signature
  after_key c r g w (found rec) =
      let tier = lower rec.tier in
      check_signature c r tier (tier_or_default (get_tier g.config tier)) g w
  after_key c r g w (refused key_frozen) =
      answered env g false
        (respond_json (pos 403) (error_json "API key frozen by emergency security kill-switch") w)
  after_key c r g w (refused _) =
      answered env g false (respond_json (pos 401) (error_json "invalid or revoked API key") w)

  abbrev pub is_frozen_in_redis : Option (RedisClient S) → String → Bool
  is_frozen_in_redis none key = false
  is_frozen_in_redis (some client) key = is_key_frozen env.server client key

  unfoldable pub serve_keyed :
      Readings → ClientRequest → GatewayProxy S D P Float64 L → Response → Served S D P Float64 L
  unfolding after_key
  serve_keyed c r g w =
      if str_eq r.api_key ""
      then answered env g false (respond_json (pos 401) (error_json "missing X-API-Key header") w)
      else if is_frozen_in_redis g.repo.redis r.api_key
      then answered env g false
          (respond_json (pos 403) (error_json "API key frozen by emergency security kill-switch") w)
      else let (repo, answer) = get_api_key env.server env.database env.hash_key g.repo r.api_key in
        after_key c r (record g { repo = repo }) w answer
