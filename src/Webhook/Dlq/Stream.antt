-- ===== src/Webhook/Dlq/Stream.antt =====
-- DLQManager with its copy in a Redis stream, and what a restart finds there. The server and the two
-- directions of `encoding/json` are parameters.
use aegis_pulse.Base.{
  ℕ, ◌≡◌, ◌∙◌, ap, Bool, true, false, Option, none, some, List, [], ◌∷◌, ◌++◌, map, String,
  if◌then◌else◌, str_eq, ℤ, Text, lookup, lookup-insert_self, inl, inr, Option-cases, subst,
}
use aegis_pulse.Webhook.Adapters.{Payload}
use aegis_pulse.Webhook.Delivery.{Reply}
use aegis_pulse.Webhook.Dlq.Defs.{
  DlqItem, DlqManager, RetryError, SignedRequest, enqueue, load_from_redis, re_sign_and_retry,
}
use aegis_pulse.Webhook.Dlq.Retry.{Settled, re_sign_and_retry-Settled}

-- `xadd` appends a message with an id and the item's data, and says whether it did. `xrange` gives the
-- `item_data` of each message, where it is a string, and `none` on an error.
pub record StreamServer (S : Type 0) : Type 0 where
  pub xadd : S → String → String → Text → S × Bool
  pub xrange : S → String → Option (List (Option Text))

-- The items in memory, and the client, which is nil where the connection failed.
pub record DlqStore (S : Type 0) : Type 0 where
  pub redis_client : Option S
  pub stream_dlq : String
  pub in_memory : DlqManager

unfoldable pub new_dlq_manager : {S : Type 0} → Option S → String → DlqStore S
new_dlq_manager client stream_dlq = record {
  redis_client = client;
  stream_dlq = if str_eq stream_dlq "" then "stream:gateway:dlq" else stream_dlq;
  in_memory = [];
}

abbrev decoded : (Text → Option DlqItem) → Option Text → Option DlqItem
decoded unmarshal none = none
decoded unmarshal (some bytes) = unmarshal bytes

module _ {S : Type 0} (server : StreamServer S) (marshal_item : DlqItem → Option Text)
    (unmarshal_item : Text → Option DlqItem) where
  abbrev loaded : Option (List (Option Text)) → DlqStore S → DlqStore S × Bool
  loaded none m = (m, false)
  loaded (some msgs) m = (
    record m { in_memory = load_from_redis (map (decoded unmarshal_item) msgs) m.in_memory },
    true,
  )

  abbrev load_with : Option S → DlqStore S → DlqStore S × Bool
  load_with none m = (m, true)
  load_with (some s) m = loaded (server.xrange s m.stream_dlq) m

  -- Whether there was no error is the second part.
  unfoldable pub load_items : DlqStore S → DlqStore S × Bool
  load_items m = load_with m.redis_client m

  abbrev add_to : String → String → Text → Option S → Option S
  add_to stream id bytes none = none
  add_to stream id bytes (some s) = some (server.xadd s stream id bytes).0

  abbrev persist : DlqItem → Option Text → DlqStore S → DlqStore S × Bool
  persist item none m = (m, false)
  persist item (some bytes) m =
      (record m { redis_client = add_to m.stream_dlq item.id bytes m.redis_client }, true)

  unfoldable pub enqueue_item : DlqItem → DlqStore S → DlqStore S × Bool
  unfolding enqueue
  enqueue_item item m =
      persist item (marshal_item item) (record m { in_memory = enqueue item m.in_memory })

  -- A retry works on the items in memory.
  unfoldable pub retry_item_of :
      (Text → Text → List ℕ)
      → (Payload → Option Text)
      → (SignedRequest → Reply)
      → String
      → ℤ
      → DlqStore S
      → DlqStore S × Option RetryError
  unfolding re_sign_and_retry
  retry_item_of hmac marshal send id now m =
      let (items, err) = re_sign_and_retry hmac marshal send id now m.in_memory in
      (record m { in_memory = items }, err)

  load_from_redis-last :
      (msgs : List (Option Text)) (item : DlqItem) (bytes : Text) (m : DlqManager)
      → unmarshal_item bytes ≡ some item
      → lookup item.id (load_from_redis (map (decoded unmarshal_item) (msgs ++ some bytes ∷ [])) m)
        ≡ some item
  unfolding load_from_redis
  load_from_redis-last [] item bytes m h = rw h (lookup-insert_self item.id item m)
  load_from_redis-last (none ∷ msgs) item bytes m h = load_from_redis-last msgs item bytes m h
  load_from_redis-last (some other ∷ msgs) item bytes m h =
      elim (Option-cases (unmarshal_item other)) [
        | inl bad ↦ rw bad (load_from_redis-last msgs item bytes m h)
        | inr (item', good) ↦ rw good (load_from_redis-last msgs item bytes _ h)
      ]

  module _ (s : S) (stream : String) (item : DlqItem) (bytes : Text) (msgs : List (Option Text))
      (encoded : marshal_item item ≡ some bytes) (decodes : unmarshal_item bytes ≡ some item)
      (appends : server.xrange
          (server.xadd s (new_dlq_manager (some s) stream).stream_dlq item.id bytes).0
          (new_dlq_manager (some s) stream).stream_dlq
        ≡ some (msgs ++ some bytes ∷ [])) where
    -- A manager that a restart makes of the client of another.
    abbrev pub restarted : DlqStore S → DlqStore S
    restarted m = (load_items (new_dlq_manager m.redis_client stream)).0

    abbrev pub after_enqueue : DlqStore S
    after_enqueue = (enqueue_item item (new_dlq_manager (some s) stream)).0

    -- What is stored is the message and the item.
    after_enqueue-stored : after_enqueue ≡ record {
      redis_client =
          some (server.xadd s (new_dlq_manager (some s) stream).stream_dlq item.id bytes).0;
      stream_dlq = (new_dlq_manager (some s) stream).stream_dlq;
      in_memory = enqueue item [];
    }
    unfolding enqueue_item new_dlq_manager
    after_enqueue-stored =
        ap
          (λ o.
            (persist item o
              (record (new_dlq_manager (some s) stream) { in_memory = enqueue item [] })).0)
          encoded

    restarted-stored :
        (m : DlqStore S)
        → m.redis_client
          ≡ some (server.xadd s (new_dlq_manager (some s) stream).stream_dlq item.id bytes).0
        → lookup item.id (restarted m).in_memory ≡ some item
    unfolding load_items new_dlq_manager
    restarted-stored m h =
        ap (λ c. lookup item.id (load_items (new_dlq_manager c stream)).0.in_memory) h
        ∙ ap
            (λ o.
              lookup item.id
                (loaded o (
                  new_dlq_manager
                    (some
                      (server.xadd s (new_dlq_manager (some s) stream).stream_dlq item.id bytes).0)
                    stream)).0.in_memory)
            appends
        ∙ load_from_redis-last msgs item bytes [] decodes

    restarted-enqueued : lookup item.id (restarted after_enqueue).in_memory ≡ some item
    restarted-enqueued =
        restarted-stored after_enqueue (ap (λ m. m.redis_client) after_enqueue-stored)

    stored_item : lookup item.id after_enqueue.in_memory ≡ some item
    unfolding enqueue
    stored_item = rw after_enqueue-stored (lookup-insert_self item.id item [])

    gone :
        (hmac : Text → Text → List ℕ) (marshal : Payload → Option Text)
        (send : SignedRequest → Reply) (now : ℤ)
        → let (retried, err) = retry_item_of hmac marshal send item.id now after_enqueue in
          err ≡ none → lookup item.id retried.in_memory ≡ none
    unfolding retry_item_of
    gone hmac marshal send now good = subst (Settled item _) good (
        re_sign_and_retry-Settled hmac marshal send item.id now after_enqueue.in_memory item
          stored_item)

    -- Where the encoder and the decoder agree on an item and the server appends its message to the
    -- stream: an item that is enqueued is found after a restart, as it was. So it is after a retry of it
    -- that succeeded, which removes it from memory only.
    pub restarted-retried :
        (hmac : Text → Text → List ℕ) (marshal : Payload → Option Text)
        (send : SignedRequest → Reply) (now : ℤ)
        → let (retried, err) = retry_item_of hmac marshal send item.id now after_enqueue in
          (lookup item.id (restarted after_enqueue).in_memory ≡ some item)
          × (err ≡ none → lookup item.id retried.in_memory ≡ none)
          × (lookup item.id (restarted retried).in_memory ≡ some item)
    unfolding retry_item_of enqueue_item enqueue new_dlq_manager
    restarted-retried hmac marshal send now =
        (restarted-enqueued, gone hmac marshal send now, restarted-enqueued)
