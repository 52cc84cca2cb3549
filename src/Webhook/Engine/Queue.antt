-- ===== src/Webhook/Engine/Queue.antt =====
-- What happens to the events between publishing and the workers.
use mathlib.Core.List.{Sublistᴰ, append_assoc}
use aegis_pulse.Base.{
  ◌+◌, ◌≡◌, ◌≤◌, refl, sym, ◌∙◌, ap, ap₂, Option, List, Text, [], ◌∷◌, ◌++◌, map, String, ltb, ℤ,
  length, length-append, arith, Bool-cases, inl, inr, Dict,
}
use aegis_pulse.Config.Types.{SinkDetail}
use aegis_pulse.Webhook.Adapters.{UniversalEvent, Payload}
use aegis_pulse.Webhook.Delivery.{publish, channel_capacity}
use aegis_pulse.Webhook.Engine.Defs.{
  Message, message_event, Engine, stream_messages, receive, work, Step, publishes, works, reads,
  step, run_steps, new_engine,
}

-- The events that the steps offer to the channel, in order.
abbrev pub offered : List Step → List UniversalEvent
offered [] = []
offered (publishes event ∷ ss) = event ∷ offered ss
offered (works sinks ∷ ss) = offered ss
offered (reads now msgs ∷ ss) = map (message_event now) msgs ++ offered ss

-- The messages that the poller reads.
abbrev pub read_ids : List Step → List String
read_ids [] = []
read_ids (reads now msgs ∷ ss) = map (λ m. m.id) msgs ++ read_ids ss
read_ids (_ ∷ ss) = read_ids ss

-- From `e` to `e'`, while `events` are offered and the messages `ids` are read.
pub record Fed (e : Engine) (events : List UniversalEvent) (ids : List String) (e' : Engine)
    : Type 0 where
  pub accepted : List UniversalEvent
  pub ordered : Sublistᴰ accepted events
  pub fifo : e'.taken ++ e'.events_chan ≡ e.taken ++ e.events_chan ++ accepted
  pub bounded : length e.events_chan ≤ channel_capacity → length e'.events_chan ≤ channel_capacity
  pub grows : length e'.events_chan ≤ length e.events_chan + length events
  pub lossless : length e.events_chan + length events ≤ channel_capacity → accepted ≡ events
  pub acks : e'.acked ≡ e.acked ++ ids

append_nil : {A : Type 0} (xs : List A) → xs ++ [] ≡ xs
append_nil [] = refl
append_nil (x ∷ xs) = ap (◌∷◌ x) (append_nil xs)

Sublist-append :
    {A : Type 0} {a b c d : List A} → Sublistᴰ a b → Sublistᴰ c d → Sublistᴰ (a ++ c) (b ++ d)
Sublist-append Sublistᴰ.slnil t = t
Sublist-append (Sublistᴰ.cons s) t = Sublistᴰ.cons (Sublist-append s t)
Sublist-append (Sublistᴰ.cons-cons same s) t = Sublistᴰ.cons-cons same (Sublist-append s t)

Fed-none : (e : Engine) → Fed e [] [] e
Fed-none e = record {
  accepted = [];
  ordered = Sublistᴰ.slnil;
  fifo = sym (append_nil _);
  bounded = λ h. h;
  grows = omega arith;
  lossless = λ h. refl;
  acks = sym (append_nil _);
}

Fed-then :
    (e e' e'' : Engine) (events events' : List UniversalEvent) (ids ids' : List String)
    → Fed e events ids e'
    → Fed e' events' ids' e''
    → Fed e (events ++ events') (ids ++ ids') e''
Fed-then e e' e'' events events' ids ids' one two = record {
  accepted = one.accepted ++ two.accepted;
  ordered = Sublist-append one.ordered two.ordered;
  fifo =
      two.fifo
      ∙ ap (λ xs. xs ++ two.accepted) one.fifo
      ∙ append_assoc (e.taken ++ e.events_chan) one.accepted two.accepted;
  bounded = λ h. two.bounded (one.bounded h);
  grows = rw (length-append events events') (omega (arith, one.grows, two.grows));
  lossless = λ h.
      let room : length e.events_chan + (length events + length events') ≤ channel_capacity =
        rw (← length-append events events') h in
      ap₂ ◌++◌ (one.lossless (omega arith)) (two.lossless (omega (arith, one.grows)));
  acks = two.acks ∙ ap (λ xs. xs ++ ids') one.acks ∙ append_assoc e.acked ids ids';
}

-- Publishing, and for a message the acknowledgement.
Fed-publish :
    (e : Engine) (event : UniversalEvent) (ids acked : List String)
    → acked ≡ e.acked ++ ids
    → Fed e (event ∷ []) ids (record e { events_chan = publish event e.events_chan; acked = acked })
unfolding publish
Fed-publish e event ids acked same =
    elim (Bool-cases (ltb (length e.events_chan) channel_capacity)) [
      | inl room ↦
          let grown = length-append e.events_chan (event ∷ []) in
          rw room (record {
            accepted = event ∷ [];
            ordered = Sublistᴰ.cons-cons refl Sublistᴰ.slnil;
            fifo = sym (append_assoc e.taken e.events_chan (event ∷ []));
            bounded = λ h. ground (arith, grown);
            grows = omega (arith, grown);
            lossless = λ h. refl;
            acks = same;
          })
      | inr full ↦ rw full (record {
        accepted = [];
        ordered = Sublistᴰ.cons Sublistᴰ.slnil;
        fifo = sym (append_nil _);
        bounded = λ h. h;
        grows = omega arith;
        lossless = λ h. absurd (ground arith);
        acks = same;
      })
    ]

Fed-stream :
    (now : ℤ) (msgs : List Message) (e : Engine)
    → Fed e (map (message_event now) msgs) (map (λ m. m.id) msgs) (stream_messages now msgs e)
unfolding stream_messages
Fed-stream now [] e = Fed-none e
Fed-stream now (msg ∷ msgs) e =
    Fed-then e _ _ (message_event now msg ∷ []) (map (message_event now) msgs) (msg.id ∷ [])
      (map (λ m. m.id) msgs) (Fed-publish e (message_event now msg) (msg.id ∷ []) _ refl)
      (Fed-stream now msgs _)

module _ (marshal : Payload → Option Text) where
  Fed-receive :
      (sinks : Dict SinkDetail) (e : Engine) (queue : List UniversalEvent)
      → e.events_chan ≡ queue
      → Fed e [] [] (receive marshal sinks e queue)
  Fed-receive sinks e [] h = Fed-none e
  Fed-receive sinks e (event ∷ rest) h = record {
    accepted = [];
    ordered = Sublistᴰ.slnil;
    fifo = rw h (append_assoc e.taken (event ∷ []) rest ∙ sym (append_nil _));
    bounded = λ le. omega (arith, le, ap length h);
    grows = omega (arith, ap length h);
    lossless = λ le. refl;
    acks = sym (append_nil _);
  }

  Fed-run :
      (ss : List Step) (e : Engine) → Fed e (offered ss) (read_ids ss) (run_steps marshal ss e)
  unfolding run_steps step work
  Fed-run [] e = Fed-none e
  Fed-run (publishes event ∷ ss) e =
      Fed-then e _ _ (event ∷ []) (offered ss) [] (read_ids ss)
        (Fed-publish e event [] e.acked (sym (append_nil _))) (Fed-run ss _)
  Fed-run (works sinks ∷ ss) e =
      Fed-then e _ _ [] (offered ss) [] (read_ids ss) (Fed-receive sinks e e.events_chan refl)
        (Fed-run ss _)
  Fed-run (reads now msgs ∷ ss) e =
      Fed-then e _ _ (map (message_event now) msgs) (offered ss) (map (λ m. m.id) msgs)
        (read_ids ss) (Fed-stream now msgs e) (Fed-run ss _)

  -- From a new engine, whatever clients publish, the poller reads and the workers take: the events
  -- that the workers took, and then those in the channel, are some of the offered events in the order
  -- in which they were offered, and all of them if at most 5000 were offered. The channel holds at
  -- most 5000. Every message that the poller read is acknowledged, also one whose event had no room.
  pub run_steps-fifo :
      (ss : List Step)
      → let e = run_steps marshal ss new_engine in
        Sublistᴰ (e.taken ++ e.events_chan) (offered ss)
        × (length (offered ss) ≤ channel_capacity → e.taken ++ e.events_chan ≡ offered ss)
        × (length e.events_chan ≤ channel_capacity)
        × (e.acked ≡ read_ids ss)
  run_steps-fifo ss =
      let fed = Fed-run ss new_engine in
      (
        rw fed.fifo fed.ordered,
        λ h. fed.fifo ∙ fed.lossless (omega (arith, h)),
        fed.bounded (omega arith),
        fed.acks,
      )
