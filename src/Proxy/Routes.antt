-- ===== src/Proxy/Routes.antt =====
-- Which requests reach the upstream.
use aegis_pulse.Base.{
  ◌≡◌, ◌≢◌, refl, sym, ◌∙◌, inl, inr, true, false, ◌||◌, some, List, String, str_eq, ℤ, codes,
  lookup, Bool-cases,
}
use aegis_pulse.Cache.Breaker.Probing.{probing_denies}
use aegis_pulse.Storage.Keys.{
  ApiKeyRecord, found, refused, KeyError, key_frozen, get_api_key, create_audit_log, freeze_api_key,
}
use aegis_pulse.Storage.Keys.Freeze.{
  OnlyAt, FrozenAt, Op, run, run-FrozenAt, frozen_is_refused, freeze_api_key-FrozenAt,
}
use aegis_pulse.Proxy.Recorder.{Response}
use aegis_pulse.Proxy.Defs.{GatewayProxy, ClientRequest, Readings, AdminReadings, World}
use aegis_pulse.Proxy.Admin.{has_prefix, is_admin_path, kill, serve_internal}
use aegis_pulse.Proxy.Guards.{IsAdmitted, past, serve_keyed-IsAdmitted}

refused-ne-found : (e : KeyError) (rec : ApiKeyRecord) → refused e ≢ found rec
refused-ne-found e rec h = cc

module _ {S D P Float64 L : Type 0} (env : World S D P Float64 L) where
  -- A request for which the reverse proxy is called has passed every guard: its path is not one of
  -- the administration API; it names a key; Redis does not hold that key as frozen; the repository
  -- gives the key's record; the signature, if there is one, is accepted for the body; the limiter's
  -- answer for the record's tier is neither BLOCKED nor BURST_FROZEN; and the circuit breaker lets
  -- the request pass.
  pub serve_internal-IsAdmitted :
      (uptime : ℤ) (a : AdminReadings) (c : Readings) (r : ClientRequest)
      (g : GatewayProxy S D P Float64 L) (w : Response)
      → (serve_internal env uptime a c r g w).forwarded ≡ true
      → (is_admin_path (codes r.path) ≡ false) × IsAdmitted env c r g
  unfolding serve_internal
  serve_internal-IsAdmitted uptime a c r g w h =
      let (p1, h1) = past env (str_eq r.path "/healthz") _ _ refl h in
      let (p2, h2) = past env (str_eq r.path "/metrics") _ _ refl h1 in
      let (p3, h3) =
        past env (str_eq r.path "/demo" || has_prefix "/demo/" (codes r.path)) _ _ refl h2 in
      let (p4, h4) =
        past env (str_eq r.path "/docs" || has_prefix "/docs/" (codes r.path)) _ _ refl h3 in
      let (p5, h5) = past env (is_admin_path (codes r.path)) _ _ refl h4 in
      (p5, serve_keyed-IsAdmitted env c r g w h5)

  -- While the emergency cutoff is on, no request is forwarded.
  pub cutoff_forwards_nothing :
      (uptime : ℤ) (a : AdminReadings) (c : Readings) (r : ClientRequest)
      (g : GatewayProxy S D P Float64 L) (w : Response)
      → g.circuit_breaker.emergency_cutoff ≡ true
      → (serve_internal env uptime a c r g w).forwarded ≡ false
  cutoff_forwards_nothing uptime a c r g w h =
      elim (Bool-cases (serve_internal env uptime a c r g w).forwarded) [
        | inl forwarded ↦
            let (path, (named, thawed, (rec, is_found, (signed, rate, allowed)))) =
              serve_internal-IsAdmitted uptime a c r g w forwarded in
            let (same, denied) = probing_denies g.circuit_breaker c.allow_at (inr h) in cc
        | inr stopped ↦ stopped
      ]

  refused_forwards_nothing :
      (uptime : ℤ) (a : AdminReadings) (c : Readings) (r : ClientRequest)
      (g : GatewayProxy S D P Float64 L) (w : Response) (e : KeyError)
      → (get_api_key env.server env.database env.hash_key g.repo r.api_key).1 ≡ refused e
      → (serve_internal env uptime a c r g w).forwarded ≡ false
  refused_forwards_nothing uptime a c r g w e h =
      elim (Bool-cases (serve_internal env uptime a c r g w).forwarded) [
        | inl forwarded ↦
            let (path, (named, thawed, (rec, is_found, rest))) =
              serve_internal-IsAdmitted uptime a c r g w forwarded in
            absurd (refused-ne-found e rec (sym h ∙ is_found))
        | inr stopped ↦ stopped
      ]

  pub kill-FrozenAt :
      (a : AdminReadings) (key : String) (g : GatewayProxy S D P Float64 L) (w : Response)
      (rec : ApiKeyRecord)
      → str_eq key "" ≡ false
      → OnlyAt key (env.hash_key key) g.repo.mem_keys
      → lookup (env.hash_key key) g.repo.mem_keys ≡ some rec
      → FrozenAt (env.hash_key key) (kill env a key g w).0.repo.mem_keys
  unfolding kill create_audit_log freeze_api_key
  kill-FrozenAt a key g w rec named only e = rw named (
      freeze_api_key-FrozenAt env.server env.database env.hash_key g.repo key a.frozen_at rec only
        e)

  -- After the kill switch is used on a key that is not empty, whose record is in memory and is
  -- the only one that the freeze can meet, no request with that key is forwarded, whatever its
  -- signature and whatever Redis and PostgreSQL answer, by a gateway whose repository is the one
  -- that the kill switch left, after any lookups and freezes.
  pub kill_forwards_nothing :
      (uptime : ℤ) (a a' : AdminReadings) (c : Readings) (r : ClientRequest)
      (before after : GatewayProxy S D P Float64 L) (w w' : Response) (rec : ApiKeyRecord)
      (ops : List Op)
      → str_eq r.api_key "" ≡ false
      → OnlyAt r.api_key (env.hash_key r.api_key) before.repo.mem_keys
      → lookup (env.hash_key r.api_key) before.repo.mem_keys ≡ some rec
      → after.repo
        ≡ run env.server env.database env.hash_key (kill env a r.api_key before w).0.repo ops
      → (serve_internal env uptime a' c r after w').forwarded ≡ false
  kill_forwards_nothing uptime a a' c r before after w w' rec ops named only e same =
      refused_forwards_nothing uptime a' c r after w' key_frozen (
        rw same (
          frozen_is_refused env.server env.database env.hash_key _ r.api_key (
            run-FrozenAt env.server env.database env.hash_key (env.hash_key r.api_key) ops _
              (kill-FrozenAt a r.api_key before w rec named only e))))
