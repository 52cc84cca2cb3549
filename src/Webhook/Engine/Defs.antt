-- ===== src/Webhook/Engine/Defs.antt =====
-- Engine: the definitions.
use Prim.Native.String.{◌++◌ as concat}
use aegis_pulse.Base.{
  ℕ, Bool, Option, none, some, List, [], ◌∷◌, ◌++◌, String, if◌then◌else◌, leb_ℤ, ℤ, pos, pos_part,
  Dict, lookup, Text, codes,
}
use aegis_pulse.Clock.{Time}
use aegis_pulse.Config.Types.{SinkDetail, WebhooksConfig}
use aegis_pulse.Crypto.Signature.{generate_signature}
use aegis_pulse.Webhook.Adapters.{UniversalEvent, Payload}
use aegis_pulse.Webhook.Delivery.{
  Job, Reply, Outcome, delivered, cancelled, exhausted, max_retries, deliver, process_event,
  publish,
}
use aegis_pulse.Webhook.Dlq.{DlqItem, DlqManager, SignedRequest, enqueue, get_pending_count}

-- The key that every delivery is signed with.
abbrev pub delivery_secret : Text
delivery_secret = codes "aegis_master_secret_webhook_signing_key_2026"

-- The request of an attempt in the second `now`.
unfoldable pub delivery_request : (Text → Text → List ℕ) → Job → ℤ → SignedRequest
delivery_request hmac job now = record {
  url = job.endpoint;
  signature = generate_signature hmac job.payload delivery_secret now;
  body = job.payload;
}

-- What a delivery leaves: the queue, and the count that the metrics get, if they get one. `crashed` is
-- the nil `lastErr` of a loop with no round.
pub data Ending : Type 0 where
  crashed : Ending
  ended : DlqManager → Option ℤ → Ending

-- `random` is what `randHex(4)` gives.
abbrev pub dead_letter : WebhooksConfig → String → Time → Job → Reply → DlqItem
dead_letter cfg random failed_at job reply = record {
  id = concat "dlq_" (concat job.event.event_id (concat "_" random));
  event = job.event;
  sink_type = job.sink_type;
  target_url = job.endpoint;
  secret = delivery_secret;
  retry_count = pos (max_retries cfg);
  last_error = reply;
  failed_at = failed_at;
  payload_json = job.payload;
}

abbrev bury : Bool → DlqItem → DlqManager → Ending
bury has_metrics item queue =
    let queue' = enqueue item queue in
    ended queue' (if has_metrics then some (get_pending_count queue') else none)

abbrev pub conclude : WebhooksConfig → Bool → String → Time → Job → DlqManager → Outcome → Ending
conclude cfg has_metrics random failed_at job queue delivered = ended queue none
conclude cfg has_metrics random failed_at job queue cancelled = ended queue none
conclude cfg has_metrics random failed_at job queue (exhausted none) = crashed
conclude cfg has_metrics random failed_at job queue (exhausted (some reply)) =
    bury has_metrics (dead_letter cfg random failed_at job reply) queue

-- The endpoint answers the request of attempt `i`, sent in the second `clock i`.
unfoldable pub deliver_with_retry :
    (Text → Text → List ℕ)
    → (ℕ → SignedRequest → Reply)
    → (ℕ → ℤ)
    → (ℕ → Bool)
    → WebhooksConfig
    → Bool
    → String
    → Time
    → Job
    → DlqManager
    → Ending
unfolding deliver
deliver_with_retry hmac send clock is_done cfg has_metrics random failed_at job queue =
    conclude cfg has_metrics random failed_at job queue
      (deliver (λ i. send i (delivery_request hmac job (clock i))) is_done cfg).0

-- The goroutines that `Start` runs: the workers, and the poller if there is a Redis client.
unfoldable pub start : WebhooksConfig → Bool → ℕ × Bool
start cfg has_redis =
    (if leb_ℤ cfg.worker_concurrency (pos 0) then 4 else pos_part cfg.worker_concurrency, has_redis)

-- A message of the stream.
pub record Message : Type 0 where
  pub id : String
  pub values : Dict String

-- `%v` of an entry of the message, which is nil where it is missing.
abbrev shown : Option String → String
shown none = "<nil>"
shown (some v) = v

unfoldable pub message_event : ℤ → Message → UniversalEvent
message_event now msg = record {
  event_id = msg.id;
  event_type = shown (lookup "event_type" msg.values);
  api_key = shown (lookup "api_key" msg.values);
  tier = shown (lookup "tier" msg.values);
  timestamp = now;
  title = concat (shown (lookup "event_type" msg.values)) " event";
  description = concat "Triggered by " (shown (lookup "api_key" msg.values));
  channel = "";
  signature = [];
  metadata = [];
}

-- The channel of events, the events that the workers took, in order, with the jobs that they started,
-- and the messages that were acknowledged.
pub record Engine : Type 0 where
  pub events_chan : List UniversalEvent
  pub taken : List UniversalEvent
  pub jobs : List Job
  pub acked : List String

-- The messages that one read gives: each is published, then acknowledged.
unfoldable pub stream_messages : ℤ → List Message → Engine → Engine
unfolding message_event
stream_messages now [] e = e
stream_messages now (msg ∷ msgs) e = stream_messages now msgs (record e {
  events_chan = publish (message_event now msg) e.events_chan;
  acked = e.acked ++ msg.id ∷ [];
})

-- A worker receives the oldest event, if there is one.
abbrev pub receive :
    (Payload → Option Text) → Dict SinkDetail → Engine → List UniversalEvent → Engine
receive marshal sinks e [] = e
receive marshal sinks e (event ∷ rest) = record e {
  events_chan = rest;
  taken = e.taken ++ event ∷ [];
  jobs = e.jobs ++ process_event marshal sinks event;
}

unfoldable pub work : (Payload → Option Text) → Dict SinkDetail → Engine → Engine
work marshal sinks e = receive marshal sinks e e.events_chan

-- What happens to the engine: a client publishes, a worker is scheduled, the poller reads.
pub data Step : Type 0 where
  publishes : UniversalEvent → Step
  works : Dict SinkDetail → Step
  reads : ℤ → List Message → Step

unfoldable pub step : (Payload → Option Text) → Step → Engine → Engine
unfolding stream_messages work
step marshal (publishes event) e = record e { events_chan = publish event e.events_chan }
step marshal (works sinks) e = work marshal sinks e
step marshal (reads now msgs) e = stream_messages now msgs e

unfoldable pub run_steps : (Payload → Option Text) → List Step → Engine → Engine
unfolding step
run_steps marshal [] e = e
run_steps marshal (s ∷ ss) e = run_steps marshal ss (step marshal s e)

abbrev pub new_engine : Engine
new_engine = record { events_chan = []; taken = []; jobs = []; acked = [] }
