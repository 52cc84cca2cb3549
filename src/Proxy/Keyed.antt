-- ===== src/Proxy/Keyed.antt =====
-- What the keyed pipeline keeps of the repository, and how it answers a key or a signature that it
-- refuses.
use aegis_pulse.Base.{
  ◌≡◌, refl, ◌∙◌, ap, Bool, true, false, Option, none, some, [], String, str_eq, text_eq, lower,
  arith, leb_ℤ, ltb_ℤ, ◌&&◌, ◌||◌, pos, Dict, lookup, Bool-cases, inl, inr, if-splits, codes, Text,
}
use aegis_pulse.Config.{get_tier}
use aegis_pulse.Config.Types.{TierConfig}
use aegis_pulse.RateLimit.Result.{Status, RateLimitResult, apply_headers}
use aegis_pulse.Crypto.Signature.{SignatureError}
use aegis_pulse.Cache.Breaker.{allow_request}
use aegis_pulse.Cache.Store.{CacheEntry}
use aegis_pulse.Cache.Store
use aegis_pulse.Metrics.{record_replay_blocked, record_request, record_latency}
use aegis_pulse.Storage.Keys.{
  Repo, Found, found, refused, key_frozen, key_inactive, key_not_found, ApiKeyRecord, get_api_key,
  frozen_in_redis, record_billing_overage,
}
use aegis_pulse.Proxy.Recorder.{
  Response, ResponseRecorder, new_response_recorder, flush, unreachable_json, unavailable_json,
  error_json, rejected_json, respond_json,
}
use aegis_pulse.Proxy.Jitter.{is_jitter_active, jitter_delay, Delay, no_delay, sleeps, panics}
use aegis_pulse.Proxy.Defs.{
  GatewayProxy, RequestBody, no_body, unreadable, bytes, ClientRequest, Readings, World, Served,
}
use aegis_pulse.Proxy.Pipeline.{
  answered, simulate_jitter, with_answer, cache_key, failed_with, serve_entry, complete,
  forward_request, guard_upstream, ask_breaker, after_delay,
}
use aegis_pulse.Proxy.Admission.{
  tier_or_default, is_refused, after_limiter, limit_rate, after_signature, check_body, verify_body,
  after_key, is_frozen_in_redis, serve_keyed, bill_burst, charge,
}

module _ {S D P Float64 L : Type 0} (env : World S D P Float64 L) where
  -- The records in memory are those of `m`.
  pub record Keeps (m : Dict ApiKeyRecord) (s : Served S D P Float64 L) : Type 0 where
    pub kept : s.gateway.repo.mem_keys ≡ m

  serve_entry-Keeps :
      (g : GatewayProxy S D P Float64 L) (forwarded : Bool) (entry : Option CacheEntry)
      (w otherwise : Response)
      → Keeps g.repo.mem_keys (serve_entry env g forwarded entry w otherwise)
  serve_entry-Keeps g forwarded none w otherwise = record { kept = refl }
  serve_entry-Keeps g forwarded (some entry) w otherwise = record { kept = refl }

  complete-Keeps :
      (c : Readings) (r : ClientRequest) (rec : ResponseRecorder) (g : GatewayProxy S D P Float64 L)
      (w : Response) (err : Option _)
      → Keeps g.repo.mem_keys (complete env c r rec g w err)
  unfolding complete
  complete-Keeps c r rec g w (some err) =
      serve_entry-Keeps (failed_with env c g) true (Store.get g.smart_cache (cache_key r)) w
        (respond_json (pos 502) (unreachable_json err) w)
  complete-Keeps c r rec g w none =
      if-splits (Keeps g.repo.mem_keys)
        (leb_ℤ (pos 500) rec.status_code || leb_ℤ g.circuit_breaker.latency_threshold c.latency) _ _
        (λ failed.
          serve_entry-Keeps (failed_with env c g) true (Store.get g.smart_cache (cache_key r)) w
            (flush rec w))
        (λ rest.
          if-splits (Keeps g.repo.mem_keys)
            (leb_ℤ (pos 200) rec.status_code && ltb_ℤ rec.status_code (pos 400)) _ _
            (λ ok. record { kept = refl }) (λ other. record { kept = refl }))

  guard_upstream-Keeps :
      (c : Readings) (r : ClientRequest) (g : GatewayProxy S D P Float64 L) (w : Response)
      (allowed : Bool)
      → Keeps g.repo.mem_keys (guard_upstream env c r g w allowed)
  unfolding guard_upstream forward_request
  guard_upstream-Keeps c r g w true =
      let rec = env.forward r new_response_recorder in
      complete-Keeps c r rec
        (record g { metrics = record_latency env.prom (env.seconds c.latency) g.metrics }) w
        rec.proxy_error
  guard_upstream-Keeps c r g w false =
      serve_entry-Keeps g false (Store.get g.smart_cache (cache_key r)) w
        (respond_json (pos 503) unavailable_json w)

  ask_breaker-Keeps :
      (c : Readings) (r : ClientRequest) (g : GatewayProxy S D P Float64 L) (w : Response)
      → Keeps g.repo.mem_keys (ask_breaker env c r g w)
  unfolding ask_breaker
  ask_breaker-Keeps c r g w =
      let (cb, (allowed, state)) = allow_request g.circuit_breaker c.allow_at in
      guard_upstream-Keeps c r (with_answer env state (record g { circuit_breaker = cb })) w allowed

  after_delay-Keeps :
      (c : Readings) (r : ClientRequest) (g : GatewayProxy S D P Float64 L) (w : Response)
      (d : Delay)
      → Keeps g.repo.mem_keys (after_delay env c r g w d)
  unfolding after_delay
  after_delay-Keeps c r g w no_delay = ask_breaker-Keeps c r g w
  after_delay-Keeps c r g w (sleeps ms) = ask_breaker-Keeps c r g w
  after_delay-Keeps c r g w panics = record { kept = refl }

  simulate_jitter-Keeps :
      (c : Readings) (r : ClientRequest) (g : GatewayProxy S D P Float64 L) (w : Response)
      → Keeps g.repo.mem_keys (simulate_jitter env c r g w)
  simulate_jitter-Keeps c r g w =
      let jitter = g.config.cfg.upstream.jitter in
      after_delay-Keeps c r g w
        (jitter_delay (is_jitter_active g.jitter_override jitter.enabled) jitter c.roll c.intn)

  charge-mem_keys :
      (c : Readings) (r : ClientRequest) (tier : String) (status : Status)
      (g : GatewayProxy S D P Float64 L)
      → (charge env c r tier status g).repo.mem_keys ≡ g.repo.mem_keys
  unfolding bill_burst record_billing_overage
  charge-mem_keys c r tier status g = ground arith

  abbrev counted :
      String → RateLimitResult → GatewayProxy S D P Float64 L → GatewayProxy S D P Float64 L
  counted tier res g = record g {
    metrics = record_request env.prom (codes tier) res.status g.metrics;
  }

  after_limiter-Keeps :
      (c : Readings) (r : ClientRequest) (tier : String) (cfg : TierConfig)
      (g : GatewayProxy S D P Float64 L) (w : Response) (res : RateLimitResult)
      → Keeps g.repo.mem_keys (after_limiter env c r tier cfg g w res)
  unfolding after_limiter
  after_limiter-Keeps c r tier cfg g w res =
      if-splits (Keeps g.repo.mem_keys) (is_refused res.status) _ _
        (λ stopped. record { kept = refl })
        (λ goes. record {
          kept =
              (simulate_jitter-Keeps c r (charge env c r tier res.status (counted tier res g))
                (record w { header = apply_headers res w.header })).kept
              ∙ charge-mem_keys c r tier res.status (counted tier res g);
        })

  limit_rate-Keeps :
      (c : Readings) (r : ClientRequest) (tier : String) (cfg : TierConfig)
      (g : GatewayProxy S D P Float64 L) (w : Response)
      → Keeps g.repo.mem_keys (limit_rate env c r tier cfg g w)
  limit_rate-Keeps c r tier cfg g w =
      let (limiter, res) = env.limiter.check g.limiter (record {
        api_key = r.api_key;
        tier = tier;
        soft_limit = cfg.soft_limit;
        hard_limit = cfg.hard_limit;
        window_sec = cfg.window_seconds;
        now = c.check_at;
      }) in
      after_limiter-Keeps c r tier cfg (record g { limiter = limiter }) w res

  after_signature-Keeps :
      (c : Readings) (r : ClientRequest) (tier : String) (cfg : TierConfig)
      (g : GatewayProxy S D P Float64 L) (w : Response) (o : Option SignatureError)
      → Keeps g.repo.mem_keys (after_signature env c r tier cfg g w o)
  unfolding after_signature
  after_signature-Keeps c r tier cfg g w none = limit_rate-Keeps c r tier cfg g w
  after_signature-Keeps c r tier cfg g w (some e) = record { kept = refl }

  verify_body-Keeps :
      (c : Readings) (r : ClientRequest) (tier : String) (cfg : TierConfig)
      (g : GatewayProxy S D P Float64 L) (w : Response) (body : RequestBody)
      → Keeps g.repo.mem_keys (verify_body env c r tier cfg g w body)
  verify_body-Keeps c r tier cfg g w unreadable = record { kept = refl }
  verify_body-Keeps c r tier cfg g w no_body =
      after_signature-Keeps c r tier cfg g w (check_body env c r cfg [])
  verify_body-Keeps c r tier cfg g w (bytes body) =
      after_signature-Keeps c r tier cfg g w (check_body env c r cfg body)

  after_key-Keeps :
      (c : Readings) (r : ClientRequest) (g : GatewayProxy S D P Float64 L) (w : Response)
      (o : Found)
      → Keeps g.repo.mem_keys (after_key env c r g w o)
  unfolding after_key after_signature
  after_key-Keeps c r g w (found rec) =
      let tier = lower rec.tier in
      let cfg = tier_or_default (get_tier g.config tier) in
      if-splits (Keeps g.repo.mem_keys) (text_eq r.signature []) _ _
        (λ unsigned. limit_rate-Keeps c r tier cfg g w)
        (λ signed. verify_body-Keeps c r tier cfg g w r.body)
  after_key-Keeps c r g w (refused key_frozen) = record { kept = refl }
  after_key-Keeps c r g w (refused key_inactive) = record { kept = refl }
  after_key-Keeps c r g w (refused key_not_found) = record { kept = refl }

  -- A lookup of a key whose record is in memory leaves the repository.
  get_api_key-known :
      (repo : Repo S D) (key : String) (rec : ApiKeyRecord)
      → lookup (env.hash_key key) repo.mem_keys ≡ some rec
      → (get_api_key env.server env.database env.hash_key repo key).0 ≡ repo
  unfolding get_api_key
  get_api_key-known repo key rec e =
      elim (Bool-cases (frozen_in_redis env.server env.database env.hash_key repo.redis key)) [
        | inl stop ↦ rw stop
        | inr go ↦ rw (go, e)
      ]

  abbrev looked_up : GatewayProxy S D P Float64 L → String → Repo S D × Found
  looked_up g key = get_api_key env.server env.database env.hash_key g.repo key

  -- A request with a key whose record is in memory leaves the records in memory as they are.
  pub serve_keyed-Keeps :
      (c : Readings) (r : ClientRequest) (g : GatewayProxy S D P Float64 L) (w : Response)
      (rec : ApiKeyRecord)
      → lookup (env.hash_key r.api_key) g.repo.mem_keys ≡ some rec
      → Keeps g.repo.mem_keys (serve_keyed env c r g w)
  unfolding serve_keyed
  serve_keyed-Keeps c r g w rec e =
      if-splits (Keeps g.repo.mem_keys) (str_eq r.api_key "") _ _
        (λ unnamed. record { kept = refl })
        (λ named.
          if-splits (Keeps g.repo.mem_keys) (is_frozen_in_redis env g.repo.redis r.api_key) _ _
            (λ frozen. record { kept = refl })
            (λ thawed. record {
              kept =
                  (after_key-Keeps c r (record g { repo = (looked_up g r.api_key).0 }) w
                    (looked_up g r.api_key).1).kept
                  ∙ ap (λ (t : Repo S D). t.mem_keys) (get_api_key-known g.repo r.api_key rec e);
            }))

  -- A key that the repository holds as frozen is answered with 403, by Redis or by the record.
  pub serve_keyed-frozen :
      (c : Readings) (r : ClientRequest) (g : GatewayProxy S D P Float64 L) (w : Response)
      → str_eq r.api_key "" ≡ false
      → (get_api_key env.server env.database env.hash_key g.repo r.api_key).1 ≡ refused key_frozen
      → (serve_keyed env c r g w).response
        ≡ some (
            respond_json
              (pos 403)
              (error_json "API key frozen by emergency security kill-switch")
              w)
  unfolding serve_keyed after_key
  serve_keyed-frozen c r g w named frozen =
      elim (Bool-cases (is_frozen_in_redis env g.repo.redis r.api_key)) [
        | inl stop ↦ rw (named, stop)
        | inr go ↦ rw (named, go, frozen)
      ]

  -- A signature that is rejected for the body is answered with 401, and all that it leaves is its count.
  pub serve_keyed-rejected :
      (c : Readings) (r : ClientRequest) (g : GatewayProxy S D P Float64 L) (w : Response)
      (rec : ApiKeyRecord) (body : Text) (e : SignatureError)
      → str_eq r.api_key "" ≡ false
      → is_frozen_in_redis env g.repo.redis r.api_key ≡ false
      → looked_up g r.api_key ≡ (g.repo, found rec)
      → text_eq r.signature [] ≡ false
      → r.body ≡ bytes body
      → check_body env c r (tier_or_default (get_tier g.config (lower rec.tier))) body ≡ some e
      → serve_keyed env c r g w
        ≡ answered env
            (record g {
              metrics = record_replay_blocked env.prom (codes (lower rec.tier)) g.metrics;
            })
            false
            (respond_json (pos 401) (rejected_json e) w)
  unfolding serve_keyed after_key after_signature
  serve_keyed-rejected c r g w rec body e named thawed known signed sent rejected =
      rw (named, thawed, known, signed, sent, rejected)
