-- ===== src/Chaos/Replays.antt =====
-- The replay attack of the suite against the gateway.
use aegis_pulse.Base.{
  ℕ, zero, suc, ◌+◌, ◌*◌, ◌^◌, ◌≤◌, ◌<◌, ◌≡◌, ◌≢◌, refl, sym, subst, ◌∙◌, some, true, false, [], ℤ,
  pos, ◌-ℤ◌, ◌≤ℤ◌, ltb_ℤ, IsInt64, sub64_exact, -ℤ_parts, one_part, arith, Text, codes, lower,
  strip_prefix,
}
use aegis_pulse.Config.{ConfigManager, get_tier}
use aegis_pulse.Config.Types.{TierConfig}
use aegis_pulse.Middleware.{CorsConfig, serve_http}
use aegis_pulse.Crypto.Signature.{SignatureError, expired_timestamp, resolve_now}
use aegis_pulse.Crypto.Signature.Freshness.{IsClock}
use aegis_pulse.Crypto.Signature.RoundTrip.{verify-expired, header_ne}
use aegis_pulse.Metrics.{record_replay_blocked}
use aegis_pulse.Storage.Keys.{Repo, ApiKeyRecord, found, get_api_key}
use aegis_pulse.Proxy.{
  GatewayProxy, respond_json, rejected_json, World, answered, check_body, serve_internal,
  serve_keyed, tier_or_default, is_frozen_in_redis,
}
use aegis_pulse.Proxy.Keyed.{serve_keyed-rejected}
use aegis_pulse.Chaos.Drills.{
  attack_body, replay_key, replay_request, count_blocked, inject_replays,
}
use aegis_pulse.Chaos.Target.{Turn, fresh, serve_call, gateway_client}

-- The second in which the gateway checks the signature of call `n`.
abbrev pub checked_at : (ℕ → Turn) → ℕ → ℤ
checked_at turn n = resolve_now (turn n).readings.verify_at (turn n).readings.verify_again

-- Both clocks show a time after 1970, and the gateway's is not behind the client's.
pub record IsTimely (clock : ℕ → ℤ) (turn : ℕ → Turn) (n : ℕ) : Type 0 where
  pub sent : IsClock (clock n)
  pub checked : IsClock (checked_at turn n)
  pub ordered : clock n ≤ℤ checked_at turn n

-- The timestamp of replay `n` that is sent in a second, before it wraps.
abbrev stamp : ℤ → ℕ → ℤ
stamp sent n = sent -ℤ pos (100 * (n + 1))

-- It, and its age in another second.
module _ (sent now : ℤ) (n : ℕ) (hs : IsClock sent) (hn : IsClock now) (ordered : sent ≤ℤ now)
    (few : n < 2 ^ 32) where
  stamp-IsInt64 : IsInt64 (stamp sent n)
  stamp-IsInt64 = ground (arith, -ℤ_parts sent (pos (100 * (n + 1))), one_part (stamp sent n))

  age-IsInt64 : IsInt64 (now -ℤ stamp sent n)
  age-IsInt64 = ground (
    arith,
    -ℤ_parts sent (pos (100 * (n + 1))),
    one_part (stamp sent n),
    -ℤ_parts now (stamp sent n),
    one_part (now -ℤ stamp sent n),
  )

  age-old :
      (tolerance : ℤ)
      → ltb_ℤ tolerance (pos 100) ≡ true
      → ltb_ℤ tolerance (now -ℤ stamp sent n) ≡ true
  age-old tolerance narrow =
      ground (arith, -ℤ_parts sent (pos (100 * (n + 1))), -ℤ_parts now (stamp sent n))

module _ {S D P Float64 L : Type 0} (env : World S D P Float64 L) (cfg : CorsConfig)
    (turn : ℕ → Turn) (clock : ℕ → ℤ) where
  abbrev tolerance_of : ApiKeyRecord → ConfigManager Float64 → ℤ
  tolerance_of rec conf = (tier_or_default (get_tier conf (lower rec.tier))).replay_window_seconds

  -- The key of the replays is let through with `rec`, whose tier accepts signatures for less than a
  -- hundred seconds.
  pub record IsTarget (rec : ApiKeyRecord) (repo : Repo S D) (conf : ConfigManager Float64)
      : Type 0 where
    pub thawed : is_frozen_in_redis env repo.redis replay_key ≡ false
    pub known : get_api_key env.server env.database env.hash_key repo replay_key ≡ (repo, found rec)
    pub narrow : ltb_ℤ (tolerance_of rec conf) (pos 100) ≡ true

  serve_call-replay :
      (n : ℕ) (g : GatewayProxy S D P Float64 L)
      → serve_call env cfg turn n g (replay_request env.hmac clock n)
        ≡ serve_keyed env (turn n).readings (replay_request env.hmac clock n) g (fresh cfg)
  unfolding serve_http serve_internal strip_prefix
  serve_call-replay n g = refl

  replay-expired :
      (n : ℕ) (tier : TierConfig)
      → IsTimely clock turn n
      → n < 2 ^ 32
      → ((secret text : Text) → env.hmac secret text ≢ [])
      → ltb_ℤ tier.replay_window_seconds (pos 100) ≡ true
      → check_body env (turn n).readings (replay_request env.hmac clock n) tier (attack_body n)
        ≡ some
            (expired_timestamp (checked_at turn n -ℤ stamp (clock n) n) tier.replay_window_seconds)
  replay-expired n tier t few hashes narrow =
      let exact =
        sub64_exact (clock n) (pos (100 * (n + 1)))
          (stamp-IsInt64 (clock n) (checked_at turn n) n t.sent t.checked t.ordered few) in
      rw exact (
        verify-expired env.hmac (attack_body n) (codes replay_key) (stamp (clock n) n)
          tier.replay_window_seconds (turn n).readings.verify_at (turn n).readings.verify_again
          (stamp-IsInt64 (clock n) (checked_at turn n) n t.sent t.checked t.ordered few)
          (age-IsInt64 (clock n) (checked_at turn n) n t.sent t.checked t.ordered few) (hashes _ _)
          (age-old (clock n) (checked_at turn n) n t.sent t.checked t.ordered few
            tier.replay_window_seconds narrow))

  replay-rejected :
      (n : ℕ) (g : GatewayProxy S D P Float64 L) (rec : ApiKeyRecord)
      → IsTimely clock turn n
      → n < 2 ^ 32
      → ((secret text : Text) → env.hmac secret text ≢ [])
      → IsTarget rec g.repo g.config
      → (e : SignatureError) × (serve_call env cfg turn n g (replay_request env.hmac clock n)
          ≡ answered env
              (record g {
                metrics = record_replay_blocked env.prom (codes (lower rec.tier)) g.metrics;
              })
              false
              (respond_json (pos 401) (rejected_json e) (fresh cfg)))
  replay-rejected n g rec t few hashes target = (
    _,
    serve_call-replay n g
        ∙ serve_keyed-rejected env (turn n).readings (replay_request env.hmac clock n) g (fresh cfg)
            rec (attack_body n) _ refl target.thawed target.known (header_ne env.hmac _ _ _) refl
            (replay-expired n (tier_or_default (get_tier g.config (lower rec.tier))) t few hashes
              target.narrow),
  )

  -- Where the clocks are in order, the hash is never empty, and the key of the replays is let through
  -- with a record whose tier accepts signatures for less than 100 seconds: every one of `n` replays
  -- is answered with 401, so the count grows by `n`, and the repository is left as it was.
  pub inject_replays-blocked :
      (n i : ℕ) (g : GatewayProxy S D P Float64 L) (rec : ApiKeyRecord) (blocked : ℕ)
      → ((k : ℕ) → IsTimely clock turn k)
      → i + n ≤ 2 ^ 32
      → ((secret text : Text) → env.hmac secret text ≢ [])
      → IsTarget rec g.repo g.config
      → let after = inject_replays env.hmac clock (gateway_client env cfg turn) n i g blocked in
        (after.1 ≡ blocked + n) × (after.0.repo ≡ g.repo)
  unfolding inject_replays respond_json
  inject_replays-blocked zero i g rec blocked t few hashes target = (omega arith, refl)
  inject_replays-blocked (suc n) i g rec blocked t few hashes target =
      let (e, same) = replay-rejected i g rec (t i) (omega arith) hashes target in
      let metrics = record_replay_blocked env.prom (codes (lower rec.tier)) g.metrics in
      let (all, kept) =
        inject_replays-blocked n (i + 1) (record g { metrics = metrics }) rec (blocked + 1) t
          (omega arith) hashes target in
      subst
        (λ s.
          let after =
            inject_replays env.hmac clock (gateway_client env cfg turn) n (i + 1) s.gateway
              (count_blocked s.response blocked) in
          (after.1 ≡ blocked + suc n) × (after.0.repo ≡ g.repo))
        (sym same) (all ∙ omega arith, kept)
