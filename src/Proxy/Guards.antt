-- ===== src/Proxy/Guards.antt =====
-- What a request has passed once the reverse proxy is called for it.
use aegis_pulse.Base.{
  ◌≡◌, ◌⊎◌, refl, sym, subst, ◌∙◌, inl, inr, Bool, true, false, Option, none, some, [], String,
  str_eq, text_eq, lower, arith, if◌then◌else◌,
}
use aegis_pulse.Config.{get_tier}
use aegis_pulse.Config.Types.{TierConfig}
use aegis_pulse.RateLimit.Result.{Status, RateLimitResult}
use aegis_pulse.Crypto.Signature.{SignatureError}
use aegis_pulse.Cache.Breaker.{allow_request}
use aegis_pulse.Cache.Store.{CacheEntry}
use aegis_pulse.Storage.Keys.{
  Found, found, refused, key_frozen, key_inactive, key_not_found, ApiKeyRecord, get_api_key,
}
use aegis_pulse.Proxy.Recorder.{Response}
use aegis_pulse.Proxy.Jitter.{Delay, no_delay, sleeps, panics}
use aegis_pulse.Proxy.Defs.{
  GatewayProxy, RequestBody, no_body, unreadable, bytes, ClientRequest, Readings, World, Served,
}
use aegis_pulse.Proxy.Pipeline.{serve_entry, guard_upstream, ask_breaker, after_delay}
use aegis_pulse.Proxy.Admission.{
  tier_or_default, is_refused, after_limiter, after_signature, check_body, verify_body,
  check_signature, after_key, is_frozen_in_redis, serve_keyed, bill_burst, charge,
}

module _ {S D P Float64 L : Type 0} (env : World S D P Float64 L) where
  -- The body that is checked, where it can be read.
  abbrev pub IsSignedBody : Readings → ClientRequest → TierConfig → RequestBody → Type 0
  IsSignedBody c r cfg unreadable = ⊥
  IsSignedBody c r cfg no_body = check_body env c r cfg [] ≡ none
  IsSignedBody c r cfg (bytes body) = check_body env c r cfg body ≡ none

  -- The request has no signature, or one that the check accepts for its body.
  abbrev pub IsSigned : Readings → ClientRequest → TierConfig → Type 0
  IsSigned c r cfg = (text_eq r.signature [] ≡ true) ⊎ IsSignedBody c r cfg r.body

  -- The breaker lets the request pass.
  abbrev pub IsAllowed : Readings → GatewayProxy S D P Float64 L → Type 0
  IsAllowed c g = (allow_request g.circuit_breaker c.allow_at).1.0 ≡ true

  -- The limiter's answer for the request.
  abbrev pub rate_of :
      Readings
      → ClientRequest
      → String
      → TierConfig
      → GatewayProxy S D P Float64 L
      → RateLimitResult
  rate_of c r tier cfg g =
      (env.limiter.check g.limiter (record {
        api_key = r.api_key;
        tier = tier;
        soft_limit = cfg.soft_limit;
        hard_limit = cfg.hard_limit;
        window_sec = cfg.window_seconds;
        now = c.check_at;
      })).1

  -- Each guard of the pipeline, on the tier of the key's record.
  abbrev pub PassesTier : Readings → ClientRequest → GatewayProxy S D P Float64 L → String → Type 0
  PassesTier c r g tier =
      IsSigned c r (tier_or_default (get_tier g.config tier))
      × (is_refused (rate_of c r tier (tier_or_default (get_tier g.config tier)) g).status ≡ false)
      × IsAllowed c g

  abbrev pub IsAdmitted : Readings → ClientRequest → GatewayProxy S D P Float64 L → Type 0
  IsAdmitted c r g =
      (str_eq r.api_key "" ≡ false)
      × (is_frozen_in_redis env g.repo.redis r.api_key ≡ false)
      × ((rec : ApiKeyRecord) × ((get_api_key env.server env.database env.hash_key g.repo
              r.api_key).1
            ≡ found rec)
          × PassesTier c r g (lower rec.tier))

  serve_entry-forwarded :
      (g : GatewayProxy S D P Float64 L) (forwarded : Bool) (entry : Option CacheEntry)
      (w otherwise : Response)
      → (serve_entry env g forwarded entry w otherwise).forwarded ≡ forwarded
  serve_entry-forwarded g forwarded none w otherwise = refl
  serve_entry-forwarded g forwarded (some entry) w otherwise = refl

  guard_upstream-allowed :
      (c : Readings) (r : ClientRequest) (g : GatewayProxy S D P Float64 L) (w : Response)
      (allowed : Bool)
      → (guard_upstream env c r g w allowed).forwarded ≡ true
      → allowed ≡ true
  unfolding guard_upstream
  guard_upstream-allowed c r g w true h = refl
  guard_upstream-allowed c r g w false h = sym (serve_entry-forwarded g false _ w _) ∙ h

  ask_breaker-IsAllowed :
      (c : Readings) (r : ClientRequest) (g : GatewayProxy S D P Float64 L) (w : Response)
      → (ask_breaker env c r g w).forwarded ≡ true
      → IsAllowed c g
  unfolding ask_breaker
  ask_breaker-IsAllowed c r g w h = guard_upstream-allowed c r _ w _ h

  after_delay-IsAllowed :
      (c : Readings) (r : ClientRequest) (g : GatewayProxy S D P Float64 L) (w : Response)
      (d : Delay)
      → (after_delay env c r g w d).forwarded ≡ true
      → IsAllowed c g
  unfolding after_delay
  after_delay-IsAllowed c r g w no_delay h = ask_breaker-IsAllowed c r g w h
  after_delay-IsAllowed c r g w (sleeps ms) h = ask_breaker-IsAllowed c r g w h
  after_delay-IsAllowed c r g w panics h = cc

  charge-breaker :
      (c : Readings) (r : ClientRequest) (tier : String) (status : Status)
      (g : GatewayProxy S D P Float64 L)
      → (charge env c r tier status g).circuit_breaker ≡ g.circuit_breaker
  unfolding bill_burst
  charge-breaker c r tier status g = ground arith

  -- A test that stops the request was not met if the request went on.
  pub past :
      (stops : Bool) (x y : Served S D P Float64 L)
      → x.forwarded ≡ false
      → (if stops then x else y).forwarded ≡ true
      → (stops ≡ false) × (y.forwarded ≡ true)
  past true x y stopped h = cc
  past false x y stopped h = (refl, h)

  either :
      (b : Bool) (x y : Served S D P Float64 L)
      → (if b then x else y).forwarded ≡ true
      → ((b ≡ true) × (x.forwarded ≡ true)) ⊎ ((b ≡ false) × (y.forwarded ≡ true))
  either true x y h = inl (refl, h)
  either false x y h = inr (refl, h)

  after_limiter-IsAllowed :
      (c : Readings) (r : ClientRequest) (tier : String) (cfg : TierConfig)
      (g : GatewayProxy S D P Float64 L) (w : Response) (res : RateLimitResult)
      → (after_limiter env c r tier cfg g w res).forwarded ≡ true
      → (is_refused res.status ≡ false) × IsAllowed c g
  unfolding after_limiter
  after_limiter-IsAllowed c r tier cfg g w res h =
      let (go, on) = past (is_refused res.status) _ _ refl h in
      (
        go,
        subst (λ cb. (allow_request cb c.allow_at).1.0 ≡ true)
            (charge-breaker c r tier res.status _) (after_delay-IsAllowed c r _ _ _ on),
      )

  after_signature-IsAllowed :
      (c : Readings) (r : ClientRequest) (tier : String) (cfg : TierConfig)
      (g : GatewayProxy S D P Float64 L) (w : Response) (o : Option SignatureError)
      → (after_signature env c r tier cfg g w o).forwarded ≡ true
      → (o ≡ none) × (is_refused (rate_of c r tier cfg g).status ≡ false) × IsAllowed c g
  unfolding after_signature
  after_signature-IsAllowed c r tier cfg g w none h =
      let (go, allowed) = after_limiter-IsAllowed c r tier cfg _ w _ h in (refl, go, allowed)
  after_signature-IsAllowed c r tier cfg g w (some e) h = cc

  verify_body-IsAllowed :
      (c : Readings) (r : ClientRequest) (tier : String) (cfg : TierConfig)
      (g : GatewayProxy S D P Float64 L) (w : Response) (body : RequestBody)
      → (verify_body env c r tier cfg g w body).forwarded ≡ true
      → IsSignedBody c r cfg body
        × (is_refused (rate_of c r tier cfg g).status ≡ false)
        × IsAllowed c g
  verify_body-IsAllowed c r tier cfg g w unreadable h = cc
  verify_body-IsAllowed c r tier cfg g w no_body h = after_signature-IsAllowed c r tier cfg g w _ h
  verify_body-IsAllowed c r tier cfg g w (bytes body) h =
      after_signature-IsAllowed c r tier cfg g w _ h

  check_signature-IsAllowed :
      (c : Readings) (r : ClientRequest) (tier : String) (cfg : TierConfig)
      (g : GatewayProxy S D P Float64 L) (w : Response)
      → (check_signature env c r tier cfg g w).forwarded ≡ true
      → IsSigned c r cfg × (is_refused (rate_of c r tier cfg g).status ≡ false) × IsAllowed c g
  unfolding after_signature
  check_signature-IsAllowed c r tier cfg g w h = elim (either (text_eq r.signature []) _ _ h) [
    | inl (unsigned, on) ↦
        let (go, allowed) = after_limiter-IsAllowed c r tier cfg _ w _ on in
        (inl unsigned, go, allowed)
    | inr (signed, on) ↦
        let (ok, go, allowed) = verify_body-IsAllowed c r tier cfg g w r.body on in
        (inr ok, go, allowed)
  ]

  after_key-allowed :
      (c : Readings) (r : ClientRequest) (g : GatewayProxy S D P Float64 L) (w : Response)
      (o : Found)
      → (after_key env c r g w o).forwarded ≡ true
      → (rec : ApiKeyRecord) × (o ≡ found rec) × PassesTier c r g (lower rec.tier)
  unfolding after_key
  after_key-allowed c r g w (found rec) h = (rec, refl, check_signature-IsAllowed c r _ _ g w h)
  after_key-allowed c r g w (refused key_frozen) h = cc
  after_key-allowed c r g w (refused key_inactive) h = cc
  after_key-allowed c r g w (refused key_not_found) h = cc

  pub serve_keyed-IsAdmitted :
      (c : Readings) (r : ClientRequest) (g : GatewayProxy S D P Float64 L) (w : Response)
      → (serve_keyed env c r g w).forwarded ≡ true
      → IsAdmitted c r g
  unfolding serve_keyed
  serve_keyed-IsAdmitted c r g w h =
      let (named, h1) = past (str_eq r.api_key "") _ _ refl h in
      let (thawed, h2) = past (is_frozen_in_redis env g.repo.redis r.api_key) _ _ refl h1 in
      let (rec, is_found, passes) = after_key-allowed c r _ w _ h2 in
      (named, thawed, (rec, is_found, passes))
