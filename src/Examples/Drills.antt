-- ===== src/Examples/Drills.antt =====
-- The drills on a small gateway.
use aegis_pulse.Base.{
  ℕ, ◌+◌, ◌≡◌, refl, arith, [], ◌∷◌, String, Dict, lookup, strip_prefix, text_eq, lower, pos, codes,
}
use aegis_pulse.Cache.Breaker.{allow_request}
use aegis_pulse.Config.{get_tier}
use aegis_pulse.Config.Types.{default_config}
use aegis_pulse.Middleware.{default_cors_config, serve_http}
use aegis_pulse.RateLimit.Window.{InMemoryLimiter, new_in_memory_limiter, check}
use aegis_pulse.Storage.Keys.{get_api_key, matches}
use aegis_pulse.Proxy.{
  GatewayProxy, World, key_frozen_json, new_response_recorder, serve_internal, serve_keyed,
  after_delay, jitter_delay, is_jitter_active, flush,
}
use aegis_pulse.Chaos.Drills.{
  drill_passed, compromised_key, replay_key, run_kill_switch_drill, inject_replays,
}
use aegis_pulse.Chaos.Target.{Turn, gateway_client}
use aegis_pulse.Chaos.KillDrill.{kill_drill-neutralizes}
use aegis_pulse.Chaos.Replays.{inject_replays-blocked}
use aegis_pulse.Examples.Signatures.{byte_hmac, repo, key_record}
use aegis_pulse.Examples.Requests.{world, gateway, admin, readings}

abbrev drilled : World (Dict String) ℕ ℕ ℕ InMemoryLimiter
drilled = record (world (pos 200)) {
  decode = λ r. record (((world (pos 200)).decode) r) { api_key = compromised_key };
}

abbrev target : GatewayProxy (Dict String) ℕ ℕ ℕ InMemoryLimiter
target = record gateway {
  repo = record repo {
    mem_keys =
        (replay_key, record (key_record "k3") { tier = "Free" })
        ∷ (compromised_key, key_record "k1")
        ∷ [];
  };
}

abbrev turn : ℕ → Turn
turn n = record { uptime = pos 1; admin = admin; readings = readings }

kill_drill-neutralizes_example :
    (run_kill_switch_drill (gateway_client drilled default_cors_config turn) (codes "{}") target).1
    ≡ drill_passed (pos 200) (key_frozen_json compromised_key ∷ []) (pos 403)
unfolding lookup matches serve_http serve_internal strip_prefix serve_keyed get_api_key text_eq
    check new_in_memory_limiter get_tier default_config lower after_delay jitter_delay
    is_jitter_active allow_request new_response_recorder flush
kill_drill-neutralizes_example =
    kill_drill-neutralizes drilled default_cors_config turn (codes "{}") target (key_record "k1") _
      refl (λ e. cc, (λ e. refl, tt)) refl refl

inject_replays-blocked_example :
    let after =
      inject_replays byte_hmac
        (λ k. pos 1000)
        (gateway_client drilled default_cors_config turn)
        10
        0
        target
        0 in
    (after.1 ≡ 0 + 10) × (after.0.repo ≡ target.repo)
unfolding get_api_key lookup get_tier default_config lower
inject_replays-blocked_example =
    inject_replays-blocked drilled default_cors_config turn (λ k. pos 1000) 10 0 target
      (record (key_record "k3") { tier = "Free" }) 0
      (λ k. record {
        sent = (refl, omega arith);
        checked = (refl, omega arith);
        ordered = omega arith;
      })
      (omega arith) (λ s t e. cc) (record { thawed = refl; known = refl; narrow = refl })
