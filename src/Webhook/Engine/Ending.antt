-- ===== src/Webhook/Engine/Ending.antt =====
-- How a delivery leaves the dead-letter queue.
use aegis_pulse.Base.{
  ℕ, ◌-◌, ◌≡◌, ◌<◌, ◌⊎◌, refl, Bool, true, false, Option, none, some, List, String, str_eq,
  if◌then◌else◌, ℤ, pos, Text, lookup, lookup-insert, lookup-insert_self, inl, inr, length, arith,
}
use aegis_pulse.Clock.{Time}
use aegis_pulse.Config.Types.{WebhooksConfig}
use aegis_pulse.Webhook.Delivery.{Job, Reply, Outcome, exhausted, is_ok, max_retries}
use aegis_pulse.Webhook.Delivery.Attempts.{AllFail, Ends, deliver-Ends}
use aegis_pulse.Webhook.Dlq.{DlqItem, DlqManager, SignedRequest, enqueue, get_pending_count}
use aegis_pulse.Webhook.Engine.Defs.{
  delivery_request, Ending, ended, dead_letter, conclude, deliver_with_retry,
}

module _ (cfg : WebhooksConfig) (has_metrics : Bool) (random : String) (failed_at : Time)
    (job : Job) (queue : DlqManager) (reply : ℕ → Reply) (is_done : ℕ → Bool) where
  -- The queue has the item of the job, with the last reply, and what it had under other ids.
  pub record IsBuried (item : DlqItem) (after : DlqManager) (count : Option ℤ) : Type 0 where
    pub kept : lookup item.id after ≡ some item
    pub others : (k : String) → str_eq item.id k ≡ false → lookup k after ≡ lookup k queue
    pub event : item.event ≡ job.event
    pub sink_type : item.sink_type ≡ job.sink_type
    pub target : item.target_url ≡ job.endpoint
    pub payload : item.payload_json ≡ job.payload
    pub retries : item.retry_count ≡ pos (max_retries cfg)
    pub last : item.last_error ≡ reply (max_retries cfg - 1)
    pub counted : count ≡ (if has_metrics then some (pos (length after)) else none)

  -- The ways to end: the queue is as it was, and an attempt was answered with 2xx or a wait was cut
  -- short; or all attempts failed, and the item is in the queue. There is none that crashes.
  abbrev pub EndsWell : Ending → Type 0
  EndsWell e =
      ((i : ℕ) × (i < max_retries cfg)
        × ((is_ok (reply i) ≡ true) ⊎ (is_done i ≡ true))
        × AllFail reply 0 i
        × (e ≡ ended queue none))
      ⊎ (AllFail reply 0 (max_retries cfg)
          × (item : DlqItem) × (after : DlqManager) × (count : Option ℤ) × (e ≡ ended after count)
          × IsBuried item after count)

  bury-EndsWell :
      AllFail reply 0 (max_retries cfg)
      → (last : Option Reply) → last ≡ some (reply (max_retries cfg - 1))
      → EndsWell (conclude cfg has_metrics random failed_at job queue (exhausted last))
  unfolding enqueue get_pending_count
  bury-EndsWell fails last h =
      let item = dead_letter cfg random failed_at job (reply (max_retries cfg - 1)) in
      inr (
        fails,
        item,
        _,
        _,
        rw h refl,
        record {
          kept = lookup-insert_self item.id item queue;
          others = λ k ne. rw (lookup-insert item.id k item queue, ne) refl;
          event = refl;
          sink_type = refl;
          target = refl;
          payload = refl;
          retries = refl;
          last = refl;
          counted = refl;
        },
      )

  conclude-EndsWell :
      (o : Outcome)
      → Ends reply is_done 0 (max_retries cfg) none o
      → ((last : Option Reply) → o ≡ exhausted last → last ≡ some (reply (max_retries cfg - 1)))
      → EndsWell (conclude cfg has_metrics random failed_at job queue o)
  conclude-EndsWell o (inl (i, le, lt, e, ok, fails)) last =
      inl (i, omega arith, inl ok, fails, rw e refl)
  conclude-EndsWell o (inr (inl (i, le, lt, e, cut, fails))) last =
      inl (i, omega arith, inr cut, fails, rw e refl)
  conclude-EndsWell o (inr (inr (e, fails))) last =
      rw e (bury-EndsWell (λ i le lt. fails i le (omega arith)) _ (last _ e))

-- Whatever the endpoint answers: a delivery never crashes. Either it stops at the first attempt that
-- gets a 2xx answer, or in a wait that the context cuts short, and leaves the dead-letter queue as it
-- was; or all `max_retries` attempts failed, and the queue holds an item with the job's event, sink,
-- endpoint and payload and the last reply, the items under other ids are as they were, and the metrics
-- get the size of the queue.
pub deliver_with_retry-EndsWell :
    (hmac : Text → Text → List ℕ) (send : ℕ → SignedRequest → Reply) (clock : ℕ → ℤ)
    (is_done : ℕ → Bool) (cfg : WebhooksConfig) (has_metrics : Bool) (random : String)
    (failed_at : Time) (job : Job) (queue : DlqManager)
    → EndsWell cfg has_metrics random failed_at job queue
        (λ i. send i (delivery_request hmac job (clock i)))
        is_done
        (deliver_with_retry hmac send clock is_done cfg has_metrics random failed_at job queue)
unfolding deliver_with_retry
deliver_with_retry-EndsWell hmac send clock is_done cfg has_metrics random failed_at job queue =
    let reply : ℕ → Reply = λ i. send i (delivery_request hmac job (clock i)) in
    let (some_round, ends, last) = deliver-Ends reply is_done cfg in
    conclude-EndsWell cfg has_metrics random failed_at job queue reply is_done _ ends last
