-- ===== src/Webhook/Delivery/Defs.antt =====
-- Engine: the definitions. The endpoint, the clock and the encoder are parameters; the channel of
-- events is a list, oldest first.
use aegis_pulse.Base.{
  ℕ, zero, suc, ◌+◌, ◌-◌, ◌*◌, ◌^◌, Bool, false, ◌||◌, ◌&&◌, not, Option, none, some, List, [], ◌∷◌,
  ◌++◌, String, if◌then◌else◌, str_eq, ltb, leb_ℤ, ltb_ℤ, ℤ, pos, negsuc, wrap64, pos_part, length,
  Dict, Text,
}
use aegis_pulse.Clock.{Duration, millisecond}
use aegis_pulse.Config.Types.{SinkDetail, WebhooksConfig}
use aegis_pulse.Webhook.Adapters.{UniversalEvent, Payload, adapt}

abbrev pub channel_capacity : ℕ
channel_capacity = 5000

-- `Publish` never blocks: an event for which the channel has no room is dropped.
unfoldable pub publish : UniversalEvent → List UniversalEvent → List UniversalEvent
publish event queue = if ltb (length queue) channel_capacity then queue ++ event ∷ [] else queue

-- One goroutine that `processEvent` starts.
pub record Job : Type 0 where
  pub event : UniversalEvent
  pub sink_type : String
  pub endpoint : String
  pub payload : Text

abbrev start_job : UniversalEvent → String → String → Option Text → List Job → List Job
start_job event sink_type endpoint none jobs = jobs
start_job event sink_type endpoint (some payload) jobs =
    record { event = event; sink_type = sink_type; endpoint = endpoint; payload = payload } ∷ jobs

unfoldable pub process_event : (Payload → Option Text) → Dict SinkDetail → UniversalEvent → List Job
process_event marshal [] event = []
process_event marshal ((sink_type, detail) ∷ sinks) event =
    let rest = process_event marshal sinks event in
    if not detail.enabled || str_eq detail.endpoint ""
    then rest
    else start_job event sink_type detail.endpoint (marshal (adapt sink_type event)) rest

-- What one attempt meets: the request cannot be built, the connection fails, or an answer comes.
pub data Reply : Type 0 where
  bad_request : Text → Reply
  network_error : Text → Reply
  status : ℤ → Reply

abbrev pub is_ok : Reply → Bool
is_ok (status code) = leb_ℤ (pos 200) code && ltb_ℤ code (pos 300)
is_ok _ = false

pub data Outcome : Type 0 where
  delivered : Outcome
  cancelled : Outcome
  -- the last reply, if there was an attempt
  exhausted : Option Reply → Outcome

-- `d * k` on a Duration.
unfoldable pub scale64 : Duration → ℕ → Duration
scale64 (pos d) k = wrap64 (pos (d * k))
scale64 (negsuc d) zero = pos 0
scale64 (negsuc d) (suc k) = wrap64 (negsuc (suc d * suc k - 1))

unfoldable pub max_retries : WebhooksConfig → ℕ
max_retries cfg = if leb_ℤ cfg.max_retries (pos 0) then 3 else pos_part cfg.max_retries

unfoldable pub base_delay : WebhooksConfig → Duration
unfolding scale64
base_delay cfg =
    let d = scale64 cfg.retry_base_delay_ms millisecond in
    if leb_ℤ d (pos 0) then pos (1000 * millisecond) else d

-- `baseDelay * (1 << (attempt - 1))`
unfoldable pub backoff : Duration → ℕ → Duration
unfolding scale64
backoff base attempt = scale64 base (2 ^ (attempt - 1))

-- The loop, from `attempt` on with `left` rounds to go. `reply i` is what attempt `i` meets, and
-- `is_done i` says that the context ends in the wait before it. The second part lists the waits.
unfoldable pub attempts :
    (ℕ → Reply) → (ℕ → Bool) → Duration → ℕ → ℕ → Option Reply → Outcome × List Duration
attempts reply is_done base attempt zero last = (exhausted last, [])
attempts reply is_done base attempt (suc left) last =
    let (outcome, waits) = attempts reply is_done base (attempt + 1) left (some (reply attempt)) in
    let waits' : List Duration = if ltb 0 attempt then backoff base attempt ∷ waits else waits in
    let waited : List Duration = if ltb 0 attempt then backoff base attempt ∷ [] else [] in
    if ltb 0 attempt && is_done attempt
    then (cancelled, [])
    else if is_ok (reply attempt)
    then (delivered, waited)
    else (outcome, waits')

unfoldable pub deliver : (ℕ → Reply) → (ℕ → Bool) → WebhooksConfig → Outcome × List Duration
unfolding attempts
deliver reply is_done cfg = attempts reply is_done (base_delay cfg) 0 (max_retries cfg) none
