-- ===== src/Proxy/Recorder.antt =====
-- ResponseRecorder of internal/proxy/proxy.go, and the response that a handler writes to.
use aegis_pulse.Base.{ℕ, Bool, Option, none, some, List, [], ◌∷◌, ◌++◌, ℤ, pos, String, Text, codes}
use aegis_pulse.Http
use aegis_pulse.Http.{Header}
use aegis_pulse.Cache.Store.{CacheEntry}
use aegis_pulse.Crypto.Signature.{SignatureError}
use aegis_pulse.RateLimit.Result.{Status}
use aegis_pulse.Webhook.Dlq.{RetryError, DlqItem}

-- What the code gives to the JSON encoder, whose text is not modelled, or bytes as they are.
pub data Body : Type 0 where
  raw : List ℕ → Body
  error_json : String → Body
  -- with the error's text
  unreachable_json : Text → Body
  rejected_json : SignatureError → Body
  unavailable_json : Body
  -- the status, the soft and the hard limit, and the seconds to wait
  limited_json : Status → ℤ → ℤ → ℤ → Body
  -- the seconds of uptime and the breaker's state
  health_json : ℤ → Text → Body
  key_frozen_json : String → Body
  burst_frozen_json cutoff_json jitter_json : Bool → Body
  -- the breaker's state, then cutoff, burst freeze and jitter
  panic_status_json : Text → Bool → Bool → Bool → Body
  -- success, or the error
  retry_json : Option RetryError → Body
  items_json : List DlqItem → Body

-- A response: the status is the one of the first `WriteHeader`.
pub record Response : Type 0 where
  pub status_code : Option ℤ
  pub header : Header
  pub body : List Body

abbrev pub empty_response : Header → Response
empty_response h = record { status_code = none; header = h; body = [] }

abbrev first_status : Option ℤ → ℤ → Option ℤ
first_status none code = some code
first_status (some old) code = some old

abbrev pub write_header : ℤ → Response → Response
write_header code w = record w { status_code = first_status w.status_code code }

abbrev pub write : Body → Response → Response
write b w = record w { body = w.body ++ b ∷ [] }

-- `for _, v := range vv { h.Add(k, v) }`
unfoldable pub add_values : String → List Text → Header → Header
add_values k [] h = h
add_values k (v ∷ vs) h = add_values k vs (Http.add k v h)

unfoldable pub copy_header : Header → Header → Header
unfolding add_values
copy_header [] h = h
copy_header ((k, vs) ∷ from) h = copy_header from (add_values k vs h)

pub record ResponseRecorder : Type 0 where
  pub status_code : ℤ
  pub header_map : Header
  pub body : List ℕ
  -- the text of the error
  pub proxy_error : Option Text

unfoldable pub new_response_recorder : ResponseRecorder
new_response_recorder = record {
  status_code = pos 200;
  header_map = [];
  body = [];
  proxy_error = none;
}

unfoldable pub recorder_write : List ℕ → ResponseRecorder → ResponseRecorder
recorder_write bs r = record r { body = r.body ++ bs }

-- The status of the last `WriteHeader`.
unfoldable pub recorder_write_header : ℤ → ResponseRecorder → ResponseRecorder
recorder_write_header code r = record r { status_code = code }

unfoldable pub handle_proxy_error : Text → ResponseRecorder → ResponseRecorder
handle_proxy_error err r = record r { proxy_error = some err }

unfoldable pub flush : ResponseRecorder → Response → Response
unfolding copy_header
flush r w =
    write (raw r.body)
      (write_header r.status_code (record w { header = copy_header r.header_map w.header }))

unfoldable pub serve_cached_response : CacheEntry → Text → Response → Response
unfolding copy_header
serve_cached_response entry status_header w = write (raw entry.body) (
    write_header entry.status_code (record w {
      header = Http.set "X-Cache-Status" status_header (copy_header entry.header w.header);
    }))

unfoldable pub respond_json : ℤ → Body → Response → Response
respond_json code payload w = write payload (
    write_header code
      (record w { header = Http.set "Content-Type" (codes "application/json") w.header }))
