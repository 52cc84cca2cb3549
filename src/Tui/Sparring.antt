-- ===== src/Tui/Sparring.antt =====
-- ChaosEngine of internal/tui/chaos.go, and the drills of cmd/tui/main.go, over any client. A goroutine is
-- one step, and the list of their indices is the order in which they run.
use Prim.Native.String.{String}
use aegis_pulse.Base.{
  ℕ, ◌%◌, Option, none, some, List, [], ◌∷◌, ◌++◌, if◌then◌else◌, str_eq, leb_ℤ, eqb_ℤ, ℤ, pos,
  add64, sub64, get_or, Text, codes, print_int,
}
use aegis_pulse.Crypto.Signature.{generate_signature}
use aegis_pulse.Proxy.{Response, bytes, ClientRequest}
use aegis_pulse.Chaos.Drills.{Client, status_of, resource_request, key_at}

-- NewChaosEngine: the URL that it calls.
unfoldable pub new_chaos_engine : String → String
new_chaos_engine gateway_url =
    if str_eq gateway_url "" then "http://localhost:8080" else gateway_url

-- `drawn` is what rand.Intn(951) gives.
unfoldable pub burst_size : ℤ → ℤ → ℤ
burst_size count drawn = if leb_ℤ count (pos 0) then add64 (pos 50) drawn else count

abbrev sparring_body : Text
sparring_body = codes "{\"action\":\"replay_exploit_attempt\",\"amount\":1000000}"

abbrev sparring_key : String
sparring_key = "aegis_live_free_key_1001"

-- Signed 500 seconds ago.
abbrev pub sparring_request : (Text → Text → List ℕ) → ℤ → ClientRequest
sparring_request hmac now = record {
  method = "POST";
  path = "/api/transfer";
  request_uri = "/api/transfer";
  api_key = sparring_key;
  signature = generate_signature hmac sparring_body (codes sparring_key) (sub64 now (pos 500));
  body = bytes sparring_body;
}

-- What the goroutine of the attack logs of its answer, but for the text of an error.
abbrev verdict_line : Option Response → Text
verdict_line none = codes "⚠ [CHAOS] Replay request failed"
verdict_line (some w) =
    if eqb_ℤ (status_of w) (pos 401)
    then codes "🛡 [CHAOS] Anti-Replay Defense SUCCESS: Request intercepted and rejected (HTTP 401)!"
    else codes "⚠ [CHAOS] Replay request returned unexpected status HTTP "
      ++ print_int (status_of w)

-- The keys of the stand-alone dashboard, of which index `idx` takes one in turn.
abbrev remote_key_at : ℕ → String
remote_key_at idx =
    get_or ("aegis_live_free_key_1001" ∷ "aegis_live_pro_key_2002" ∷ []) (idx % 2) ""

-- Its replay has a signature that is written out.
abbrev pub remote_replay_request : ClientRequest
remote_replay_request = record {
  method = "POST";
  path = "/api/transfer";
  request_uri = "/api/transfer";
  api_key = sparring_key;
  signature = codes "t=100000,v1=deadbeef1234";
  body = bytes (codes "{\"exploit\":true}");
}

abbrev remote_verdict : Option Response → List String
remote_verdict none = []
remote_verdict (some w) =
    if eqb_ℤ (status_of w) (pos 401)
    then "🛡 Replay attack intercepted & blocked (HTTP 401)!" ∷ []
    else []

module _ {G : Type 0} (client : Client G) where
  -- One request for each index; the answers are dropped.
  unfoldable pub spar : (ℕ → String) → List ℕ → G → G
  spar key [] g = g
  spar key (idx ∷ order) g = spar key order (client.perform idx g (resource_request (key idx))).0

  -- `order` holds the indices below the size of the burst.
  unfoldable pub unleash_burst : ℤ → ℤ → List ℕ → G → G × List Text
  unfolding spar burst_size
  unleash_burst count drawn order g =
      let size = print_int (burst_size count drawn) in
      (
        spar key_at order g,
        (codes "🚀 [CHAOS] Unleashing burst of "
              ++ size
              ++ codes " requests (50-1000 RPS range) across Free, Pro, and Enterprise keys...")
            ∷ (codes "✅ [CHAOS] Traffic burst of " ++ size ++ codes " requests finished.")
            ∷ [],
      )

  unfoldable pub inject_replay_attack : (Text → Text → List ℕ) → ℤ → G → G × List Text
  inject_replay_attack hmac now g =
      let (g', answer) = client.perform 0 g (sparring_request hmac now) in
      (
        g',
        codes
              "⚔ [CHAOS] Injecting simulated Replay Attack with expired timestamp using key [aegis_live_free_key_1001]..."
            ∷ verdict_line answer
            ∷ [],
      )

  -- The hundred requests that a key of the stand-alone dashboard sends.
  unfoldable pub trigger_remote_burst : List ℕ → G → G
  unfolding spar
  trigger_remote_burst order g = spar remote_key_at order g

  -- The line that it logs of the answer, if any.
  unfoldable pub trigger_remote_replay : G → G × List String
  trigger_remote_replay g =
      let (g', answer) = client.perform 0 g remote_replay_request in (g', remote_verdict answer)
