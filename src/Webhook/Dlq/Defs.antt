-- ===== src/Webhook/Dlq/Defs.antt =====
-- DLQManager: the definitions, of what it keeps in memory. HMAC, the encoder, the clock and the
-- endpoint are parameters. The copy in a Redis stream is in Webhook/Dlq/Stream.antt.
use aegis_pulse.Base.{
  ℕ, Option, none, some, List, [], ◌∷◌, map, String, if◌then◌else◌, text_eq, ℤ, pos, add64, length,
  Dict, lookup, insert, erase, Text, codes,
}
use aegis_pulse.Clock.{Time}
use aegis_pulse.Crypto.Signature.{generate_signature}
use aegis_pulse.Webhook.Adapters.{UniversalEvent, Payload, adapt}
use aegis_pulse.Webhook.Delivery.{Reply, bad_request, network_error, status, is_ok}

pub record DlqItem : Type 0 where
  pub id : String
  pub event : UniversalEvent
  pub sink_type : String
  pub target_url : String
  pub secret : Text
  pub retry_count : ℤ
  -- what the last attempt met; the program keeps its text
  pub last_error : Reply
  pub failed_at : Time
  pub payload_json : Text

abbrev pub DlqManager : Type 0
DlqManager = Dict DlqItem

unfoldable pub enqueue : DlqItem → DlqManager → DlqManager
enqueue item m = insert item.id item m

unfoldable pub get_pending_count : DlqManager → ℤ
get_pending_count m = pos (length m)

unfoldable pub list : DlqManager → List DlqItem
list m = map (λ entry. entry.1) m

-- The messages of the stream, each with the item that decoding gives, if it gives one.
unfoldable pub load_from_redis : List (Option DlqItem) → DlqManager → DlqManager
load_from_redis [] m = m
load_from_redis (none ∷ msgs) m = load_from_redis msgs m
load_from_redis (some item ∷ msgs) m = load_from_redis msgs (insert item.id item m)

-- `not_found`, `not_adapted` and `not_built` are the errors before anything is sent.
pub data RetryError : Type 0 where
  not_found not_adapted : RetryError
  not_built : Text → RetryError
  failed : Reply → RetryError

-- The request that is sent: its signature header and its body.
pub record SignedRequest : Type 0 where
  pub url : String
  pub signature : Text
  pub body : Text

-- The item with the event's new timestamp.
abbrev pub stamped : ℤ → DlqItem → DlqItem
stamped now item = record item { event = record item.event { timestamp = now } }

abbrev pub secret_or_default : Text → Text
secret_or_default s = if text_eq s [] then codes "aegis_default_webhook_secret" else s

abbrev pub count_failure : Reply → DlqItem → DlqItem
count_failure reply item = record item {
  last_error = reply;
  retry_count = add64 item.retry_count (pos 1);
}

-- After the request is sent. A failure is counted on the item; a 2xx answer removes it.
abbrev pub settle : String → DlqItem → DlqManager → Reply → DlqManager × Option RetryError
settle id item m (bad_request why) = (insert id item m, some (not_built why))
settle id item m (network_error why) =
    (insert id (count_failure (network_error why) item) m, some (failed (network_error why)))
settle id item m (status code) =
    if is_ok (status code)
    then (erase id m, none)
    else (insert id (count_failure (status code) item) m, some (failed (status code)))

module _ (hmac : Text → Text → List ℕ) (marshal : Payload → Option Text)
    (send : SignedRequest → Reply) where
  abbrev pub request_of : DlqItem → Text → ℤ → SignedRequest
  request_of item payload now = record {
    url = item.target_url;
    signature = generate_signature hmac payload (secret_or_default item.secret) now;
    body = payload;
  }

  abbrev pub retry_payload :
      String → DlqItem → ℤ → DlqManager → Option Text → DlqManager × Option RetryError
  retry_payload id item now m none = (insert id (stamped now item) m, some not_adapted)
  retry_payload id item now m (some payload) =
      settle id (record (stamped now item) { payload_json = payload }) m
        (send (request_of item payload now))

  abbrev pub retry_item : String → ℤ → DlqManager → Option DlqItem → DlqManager × Option RetryError
  retry_item id now m none = (m, some not_found)
  retry_item id now m (some item) =
      retry_payload id item now m (marshal (adapt item.sink_type (stamped now item).event))

  -- `none` is `(true, nil)`; an error comes with `false`. `now` is the second that the clock shows.
  unfoldable pub re_sign_and_retry : String → ℤ → DlqManager → DlqManager × Option RetryError
  re_sign_and_retry id now m = retry_item id now m (lookup id m)
