-- ===== src/Examples/Engines.antt =====
-- The theorems on the webhook engine and on the stream of the dead-letter queue.
use mathlib.Core.List.{Sublistᴰ}
use aegis_pulse.Base.{
  ℕ, ◌≡◌, ◌≤◌, refl, true, Option, none, some, List, [], ◌∷◌, ◌++◌, ℤ, pos, Text, codes, lookup,
  length,
}
use aegis_pulse.Webhook.Delivery.{Job, Reply, status, channel_capacity}
use aegis_pulse.Webhook.Dlq.{DlqItem, SignedRequest}
use aegis_pulse.Webhook.Dlq.Stream.{
  StreamServer, after_enqueue, restarted, retry_item_of, restarted-retried,
}
use aegis_pulse.Webhook.Engine.{
  delivery_request, deliver_with_retry, Message, Step, publishes, works, reads, run_steps,
  new_engine,
}
use aegis_pulse.Webhook.Engine.Queue.{offered, read_ids, run_steps-fifo}
use aegis_pulse.Webhook.Engine.Ending.{EndsWell, deliver_with_retry-EndsWell}
use aegis_pulse.Examples.Deliveries.{sinks, never, lost, no_hmac, no_json}

abbrev message : Message
message = record { id = "5-0"; values = ("event_type", "BURST_OVERAGE") ∷ ("api_key", "a") ∷ [] }

abbrev morning : List Step
morning = publishes lost.event ∷ reads (pos 7) (message ∷ []) ∷ works [] ∷ []

run_steps-fifo_example :
    let e = run_steps no_json morning new_engine in
    Sublistᴰ (e.taken ++ e.events_chan) (offered morning)
    × (length (offered morning) ≤ channel_capacity → e.taken ++ e.events_chan ≡ offered morning)
    × (length e.events_chan ≤ channel_capacity)
    × (e.acked ≡ read_ids morning)
run_steps-fifo_example = run_steps-fifo no_json morning

abbrev pub job : Job
job = record {
  event = lost.event;
  sink_type = "generic";
  endpoint = "http://sink";
  payload = codes "hello";
}

abbrev down : ℕ → SignedRequest → Reply
down n request = status (pos 503)

abbrev pub noon : ℕ → ℤ
noon n = pos 1000

deliver_with_retry-EndsWell_example :
    EndsWell sinks true "beef"
      (pos 5)
      job
      []
      (λ i. down i (delivery_request no_hmac job (noon i)))
      never
      (deliver_with_retry no_hmac down noon never sinks true "beef" (pos 5) job [])
deliver_with_retry-EndsWell_example =
    deliver_with_retry-EndsWell no_hmac down noon never sinks true "beef" (pos 5) job []

abbrev log_server : StreamServer (List (Option Text))
log_server = record {
  xadd = λ s stream id bytes. (s ++ some bytes ∷ [], true);
  xrange = λ s stream. some s;
}

abbrev to_json : DlqItem → Option Text
to_json item = some (codes "item")

abbrev of_json : Text → Option DlqItem
of_json bytes = some lost

abbrev empty_log : List (Option Text)
empty_log = []

restarted-retried_example :
    let stored =
      after_enqueue log_server to_json of_json empty_log "" lost (codes "item") [] refl refl refl in
    let (retried, err) =
      retry_item_of log_server to_json of_json no_hmac no_json
        (λ request. status (pos 204))
        "d1"
        (pos 9)
        stored in
    (lookup "d1"
        (restarted log_server to_json of_json empty_log "" lost
          (codes "item")
          []
          refl
          refl
          refl
          stored).in_memory
      ≡ some lost)
    × (err ≡ none → lookup "d1" retried.in_memory ≡ none)
    × (lookup "d1"
          (restarted log_server to_json of_json empty_log "" lost
            (codes "item")
            []
            refl
            refl
            refl
            retried).in_memory
        ≡ some lost)
restarted-retried_example =
    restarted-retried log_server to_json of_json empty_log "" lost (codes "item") [] refl refl refl
      no_hmac no_json (λ request. status (pos 204)) (pos 9)
