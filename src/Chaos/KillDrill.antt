-- ===== src/Chaos/KillDrill.antt =====
-- The kill-switch drill against the gateway.
use aegis_pulse.Base.{
  ℕ, ◌≡◌, refl, some, false, [], ◌∷◌, String, pos, Text, codes, lookup, strip_prefix, text_eq, ap,
  sym, subst, ◌∙◌,
}
use aegis_pulse.Http
use aegis_pulse.Middleware.{CorsConfig, serve_http}
use aegis_pulse.Storage.Keys.{ApiKeyRecord}
use aegis_pulse.Storage.Keys.Freeze.{OnlyAt, FrozenAt, frozen_is_refused}
use aegis_pulse.Proxy.{
  GatewayProxy, Response, respond_json, error_json, key_frozen_json, World, answered,
  serve_internal, trim_slash, serve_keyed, kill,
}
use aegis_pulse.Proxy.Keyed.{serve_keyed-Keeps, serve_keyed-frozen}
use aegis_pulse.Proxy.Routes.{kill-FrozenAt}
use aegis_pulse.Chaos.Drills.{
  drill_passed, status_of, compromised_key, resource_request, kill_request, run_kill_switch_drill,
  run_kill_switch_drill-answered,
}
use aegis_pulse.Chaos.Target.{Turn, fresh, serve_call, gateway_client}

module _ {S D P Float64 L : Type 0} (env : World S D P Float64 L) (cfg : CorsConfig)
    (turn : ℕ → Turn) where
  -- The one that the administration API writes to.
  abbrev fresh_json : Response
  fresh_json = record (fresh cfg) {
    header = Http.set "Content-Type" (codes "application/json") (fresh cfg).header;
  }

  -- A request for the resource goes to the keyed pipeline.
  serve_call-resource :
      (n : ℕ) (g : GatewayProxy S D P Float64 L) (key : String)
      → serve_call env cfg turn n g (resource_request key)
        ≡ serve_keyed env (turn n).readings (resource_request key) g (fresh cfg)
  unfolding serve_http serve_internal strip_prefix
  serve_call-resource n g key = refl

  -- A request of the kill switch goes to its handler, with the key that decoding its body gives.
  serve_call-kill :
      (n : ℕ) (g : GatewayProxy S D P Float64 L) (payload : Text)
      → let key = (env.decode (kill_request payload)).api_key in
        serve_call env cfg turn n g (kill_request payload)
        ≡ answered env
            (kill env (turn n).admin key g fresh_json).0
            false
            (kill env (turn n).admin key g fresh_json).1
  unfolding serve_http serve_internal strip_prefix trim_slash text_eq
  serve_call-kill n g payload = refl

  -- The kill switch leaves the key's record frozen, and the body of its answer names the key.
  kill-Freezes :
      (n : ℕ) (g : GatewayProxy S D P Float64 L) (rec : ApiKeyRecord)
      → OnlyAt compromised_key (env.hash_key compromised_key) g.repo.mem_keys
      → lookup (env.hash_key compromised_key) g.repo.mem_keys ≡ some rec
      → FrozenAt
          (env.hash_key compromised_key)
          (kill env (turn n).admin compromised_key g fresh_json).0.repo.mem_keys
  kill-Freezes n g rec only there =
      kill-FrozenAt env (turn n).admin compromised_key g fresh_json rec refl only there

  -- A call with a key that is held as frozen is answered with 403.
  serve_call-frozen :
      (n : ℕ) (g : GatewayProxy S D P Float64 L)
      → FrozenAt (env.hash_key compromised_key) g.repo.mem_keys
      → (serve_call env cfg turn n g (resource_request compromised_key)).response
        ≡ some (
            respond_json
              (pos 403)
              (error_json "API key frozen by emergency security kill-switch")
              (fresh cfg))
  serve_call-frozen n g frozen =
      ap (λ s. s.response) (serve_call-resource n g compromised_key)
      ∙ serve_keyed-frozen env (turn n).readings (resource_request compromised_key) g (fresh cfg)
          refl
          (frozen_is_refused env.server env.database env.hash_key g.repo compromised_key frozen)

  -- The gateway's records in memory after a request for the resource.
  serve_call-Keeps :
      (n : ℕ) (g : GatewayProxy S D P Float64 L) (rec : ApiKeyRecord)
      → lookup (env.hash_key compromised_key) g.repo.mem_keys ≡ some rec
      → (serve_call env cfg turn n g (resource_request compromised_key)).gateway.repo.mem_keys
        ≡ g.repo.mem_keys
  serve_call-Keeps n g rec there =
      ap (λ s. s.gateway.repo.mem_keys) (serve_call-resource n g compromised_key)
      ∙ (serve_keyed-Keeps env (turn n).readings (resource_request compromised_key) g (fresh cfg)
          rec there).kept

  -- Where the record of the compromised key is in memory and is the only one that its freeze can meet,
  -- the body of the second call decodes to that key, and the first call is answered: the drill ends as
  -- passed, with the status of the first answer, the kill switch's answer for the key, and 403 for the
  -- same request as before, whatever Redis, PostgreSQL, the limiter and the upstream answer.
  pub kill_drill-neutralizes :
      (payload : Text) (g : GatewayProxy S D P Float64 L) (rec : ApiKeyRecord) (w : Response)
      → (env.decode (kill_request payload)).api_key ≡ compromised_key
      → OnlyAt compromised_key (env.hash_key compromised_key) g.repo.mem_keys
      → lookup (env.hash_key compromised_key) g.repo.mem_keys ≡ some rec
      → (serve_call env cfg turn 0 g (resource_request compromised_key)).response ≡ some w
      → (run_kill_switch_drill (gateway_client env cfg turn) payload g).1
        ≡ drill_passed (status_of w) (key_frozen_json compromised_key ∷ []) (pos 403)
  unfolding kill respond_json
  kill_drill-neutralizes payload g rec w decoded only there probed =
      let g1 = (serve_call env cfg turn 0 g (resource_request compromised_key)).gateway in
      let kept = serve_call-Keeps 0 g rec there in
      let (g2, killed) = kill env (turn 1).admin compromised_key g1 fresh_json in
      let frozen =
        kill-Freezes 1 g1 rec
          (subst (OnlyAt compromised_key (env.hash_key compromised_key)) (sym kept) only)
          (ap (lookup (env.hash_key compromised_key)) kept ∙ there) in
      ap (λ t. t.1)
        (run_kill_switch_drill-answered (gateway_client env cfg turn) payload g g1 g2 _ w killed _
          (λ i. (g1, probed i))
          (ap (λ s. (s.gateway, s.response))
            (serve_call-kill 1 g1 payload
              ∙ ap
                  (λ key.
                    answered env (kill env (turn 1).admin key g1 fresh_json).0 false
                      (kill env (turn 1).admin key g1 fresh_json).1)
                  decoded))
          (λ i. (
            (serve_call env cfg turn 2 g2 (resource_request compromised_key)).gateway,
            serve_call-frozen 2 g2 frozen i,
          )))
