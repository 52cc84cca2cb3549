-- ===== src/Chaos/Drills.antt =====
-- The kill-switch drill and the attack suite, over any client. A goroutine of the flood is one step, and
-- the list of their indices is the order in which they run.
use Prim.Native.String.{String}
use aegis_pulse.Base.{
  ℕ, zero, suc, ◌+◌, ◌*◌, ◌%◌, ◌≡◌, Option, none, some, List, [], ◌∷◌, ◌++◌, if◌then◌else◌, eqb_ℤ,
  ℤ, pos, sub64, get_or, Text, codes, text_eq, print_int,
}
use aegis_pulse.Http
use aegis_pulse.Crypto.Signature.{generate_signature}
use aegis_pulse.Proxy.{Body, Response, no_body, bytes, ClientRequest}

-- `perform n` is the `Do` of the http.Client for call `n` of a drill: it leaves what the client talks to
-- in a state, and gives the answer, or `none` for an error.
pub record Client (G : Type 0) : Type 0 where
  pub perform : ℕ → G → ClientRequest → G × Option Response

-- `resp.StatusCode`: a handler that writes no status sends 200.
abbrev code_or_ok : Option ℤ → ℤ
code_or_ok none = pos 200
code_or_ok (some code) = code

abbrev pub status_of : Response → ℤ
status_of w = code_or_ok w.status_code

abbrev pub compromised_key : String
compromised_key = "aegis_live_compromised_key_9999"

abbrev pub resource_request : String → ClientRequest
resource_request key = record {
  method = "GET";
  path = "/api/resource";
  request_uri = "/api/resource";
  api_key = key;
  signature = [];
  body = no_body;
}

-- `payload` is the JSON text of the body.
abbrev pub kill_request : Text → ClientRequest
kill_request payload = record {
  method = "POST";
  path = "/api/v1/panic/kill";
  request_uri = "/api/v1/panic/kill";
  api_key = "";
  signature = [];
  body = bytes payload;
}

-- How the drill ends: at the error of one of its three calls, or with the first status, the body of
-- the kill switch's answer, and the last status. It calls itself passed whatever these are.
pub data DrillEnd : Type 0 where
  drill_failed : DrillEnd
  dispatch_error : ℤ → DrillEnd
  verification_error : ℤ → List Body → DrillEnd
  drill_passed : ℤ → List Body → ℤ → DrillEnd

abbrev pub keys : List String
keys =
    "aegis_live_free_key_1001" ∷ "aegis_live_pro_key_2002" ∷ "aegis_live_enterprise_key_3003" ∷ []

-- `keys[idx%len(keys)]`
abbrev pub key_at : ℕ → String
key_at idx = get_or keys (idx % 3) ""

pub record Counts : Type 0 where
  pub normal : ℕ
  pub burst : ℕ
  pub blocked : ℕ

abbrev pub count_header : Text → Counts → Counts
count_header status n =
    if text_eq status (codes "NORMAL")
    then record n { normal = n.normal + 1 }
    else if text_eq status (codes "BURST")
    then record n { burst = n.burst + 1 }
    else if text_eq status (codes "BLOCKED")
    then record n { blocked = n.blocked + 1 }
    else n

abbrev pub count_answer : Option Response → Counts → Counts
count_answer none n = n
count_answer (some w) n = count_header (Http.get "X-RateLimit-Status" w.header) n

-- `{"attack_index":%d}`
abbrev pub attack_body : ℕ → Text
attack_body i = codes "{\"attack_index\":" ++ print_int (pos i) ++ codes "}"

-- The key of every replay.
abbrev pub replay_key : String
replay_key = "aegis_live_free_key_1001"

abbrev pub count_blocked : Option Response → ℕ → ℕ
count_blocked none n = n
count_blocked (some w) n = if eqb_ℤ (status_of w) (pos 401) then n + 1 else n

module _ {G : Type 0} (client : Client G) where
  abbrev verify : ℤ → G × Option Response → G × DrillEnd
  verify before (g, none) = (g, dispatch_error before)
  verify before (g, some killed) =
      let (g', answer) = client.perform 2 g (resource_request compromised_key) in
      (
        g',
        elim answer [
          | none ↦ verification_error before killed.body
          | some w ↦ drill_passed before killed.body (status_of w)
        ],
      )

  abbrev kill_then_verify : Text → G × Option Response → G × DrillEnd
  kill_then_verify payload (g, none) = (g, drill_failed)
  kill_then_verify payload (g, some w) =
      verify (status_of w) (client.perform 1 g (kill_request payload))

  unfoldable pub run_kill_switch_drill : Text → G → G × DrillEnd
  run_kill_switch_drill payload g =
      kill_then_verify payload (client.perform 0 g (resource_request compromised_key))

  -- Three answered calls.
  pub run_kill_switch_drill-answered :
      (payload : Text) (g g1 g2 g3 : G) (probed killed verified : Response)
      → client.perform 0 g (resource_request compromised_key) ≡ (g1, some probed)
      → client.perform 1 g1 (kill_request payload) ≡ (g2, some killed)
      → client.perform 2 g2 (resource_request compromised_key) ≡ (g3, some verified)
      → run_kill_switch_drill payload g
        ≡ (g3, drill_passed (status_of probed) killed.body (status_of verified))
  unfolding run_kill_switch_drill
  run_kill_switch_drill-answered payload g g1 g2 g3 probed killed verified p k v = rw (p, k, v)

  -- The first attack.
  unfoldable pub flood : List ℕ → G → Counts → G × Counts
  flood [] g n = (g, n)
  flood (idx ∷ order) g n =
      let (g', answer) = client.perform idx g (resource_request (key_at idx)) in
      flood order g' (count_answer answer n)

abbrev no_counts : Counts
no_counts = record { normal = 0; burst = 0; blocked = 0 }

module _ (hmac : Text → Text → List ℕ) (clock : ℕ → ℤ) where
  -- The request of replay `i`, whose timestamp is more than a minute and a half old.
  abbrev pub replay_request : ℕ → ClientRequest
  replay_request i = record {
    method = "POST";
    path = "/api/transfer";
    request_uri = "/api/transfer";
    api_key = replay_key;
    signature =
        generate_signature hmac (attack_body i) (codes replay_key)
          (sub64 (clock i) (pos (100 * (i + 1))));
    body = bytes (attack_body i);
  }

  -- The second attack, from index `i` with `n` requests left; `blocked` counts the answers 401.
  unfoldable pub inject_replays : {G : Type 0} → Client G → ℕ → ℕ → G → ℕ → G × ℕ
  inject_replays client zero i g blocked = (g, blocked)
  inject_replays client (suc n) i g blocked =
      let (g', answer) = client.perform i g (replay_request i) in
      inject_replays client n (i + 1) g' (count_blocked answer blocked)

  -- Both: 150 requests in some order, then ten replays.
  unfoldable pub run_chaos_attack_suite : {G : Type 0} → Client G → List ℕ → G → G × Counts × ℕ
  unfolding flood inject_replays
  run_chaos_attack_suite client order g =
      let (g', counts) = flood client order g no_counts in
      let (g'', blocked) = inject_replays client 10 0 g' 0 in (g'', counts, blocked)
