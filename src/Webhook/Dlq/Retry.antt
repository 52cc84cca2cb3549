-- ===== src/Webhook/Dlq/Retry.antt =====
-- What a retry does to the items of the queue.
use aegis_pulse.Base.{
  ℕ, ◌≡◌, refl, false, Option, none, some, List, String, str_eq, ℤ, pos, add64, lookup,
  lookup-insert, lookup-erase, lookup-insert_self, lookup-erase_self, Text, Bool-cases,
  Option-cases, inl, inr,
}
use aegis_pulse.Webhook.Adapters.{Payload, adapt}
use aegis_pulse.Webhook.Delivery.{Reply, bad_request, network_error, status, is_ok}
use aegis_pulse.Webhook.Dlq.Defs.{
  DlqItem, DlqManager, RetryError, failed, SignedRequest, stamped, count_failure, settle,
  request_of, retry_payload, re_sign_and_retry,
}

-- What becomes of `item` for each result of a retry.
abbrev pub Settled : DlqItem → Option DlqItem → Option RetryError → Type 0
Settled item kept none = kept ≡ none
Settled item kept (some (failed reply)) =
    (after : DlqItem) × (kept ≡ some after)
    × (is_ok reply ≡ false)
    × (after.last_error ≡ reply)
    × (after.retry_count ≡ add64 item.retry_count (pos 1))
Settled item kept (some e) =
    (after : DlqItem) × (kept ≡ some after)
    × (after.last_error ≡ item.last_error)
    × (after.retry_count ≡ item.retry_count)

settle-Settled :
    (id : String) (item : DlqItem) (m : DlqManager) (reply : Reply)
    → Settled item (lookup id (settle id item m reply).0) (settle id item m reply).1
settle-Settled id item m (bad_request why) = (item, lookup-insert_self id item m, refl, refl)
settle-Settled id item m (network_error why) =
    (count_failure (network_error why) item, lookup-insert_self id _ m, refl, refl, refl)
settle-Settled id item m (status code) = elim (Bool-cases (is_ok (status code))) [
  | inl good ↦ rw good (lookup-erase_self id m)
  | inr bad ↦ rw bad (count_failure (status code) item, lookup-insert_self id _ m, bad, refl, refl)
]

settle-keeps_others :
    (id other : String) (item : DlqItem) (m : DlqManager) (reply : Reply)
    → str_eq id other ≡ false
    → lookup other (settle id item m reply).0 ≡ lookup other m
settle-keeps_others id other item m (bad_request why) h = simp (lookup-insert, h)
settle-keeps_others id other item m (network_error why) h = simp (lookup-insert, h)
settle-keeps_others id other item m (status code) h = elim (Bool-cases (is_ok (status code))) [
  | inl good ↦ rw good (simp (lookup-erase, h))
  | inr bad ↦ rw bad (simp (lookup-insert, h))
]

module _ (hmac : Text → Text → List ℕ) (marshal : Payload → Option Text)
    (send : SignedRequest → Reply) where
  retry_payload-Settled :
      (id : String) (item : DlqItem) (now : ℤ) (m : DlqManager) (payload : Option Text)
      → Settled item
          (lookup id (retry_payload hmac marshal send id item now m payload).0)
          (retry_payload hmac marshal send id item now m payload).1
  retry_payload-Settled id item now m none =
      (stamped now item, lookup-insert_self id _ m, refl, refl)
  retry_payload-Settled id item now m (some payload) =
      settle-Settled id (record (stamped now item) { payload_json = payload }) m
        (send (request_of hmac marshal send item payload now))

  retry_payload-keeps_others :
      (id other : String) (item : DlqItem) (now : ℤ) (m : DlqManager) (payload : Option Text)
      → str_eq id other ≡ false
      → lookup other (retry_payload hmac marshal send id item now m payload).0 ≡ lookup other m
  retry_payload-keeps_others id other item now m none h = simp (lookup-insert, h)
  retry_payload-keeps_others id other item now m (some payload) h =
      settle-keeps_others id other (record (stamped now item) { payload_json = payload }) m
        (send (request_of hmac marshal send item payload now)) h

  pub re_sign_and_retry-Settled :
      (id : String) (now : ℤ) (m : DlqManager) (item : DlqItem)
      → lookup id m ≡ some item
      → Settled item
          (lookup id (re_sign_and_retry hmac marshal send id now m).0)
          (re_sign_and_retry hmac marshal send id now m).1
  unfolding re_sign_and_retry
  re_sign_and_retry-Settled id now m item h = rw h (
      retry_payload-Settled id item now m (marshal (adapt item.sink_type (stamped now item).event)))

  -- A retry of one id changes no other: an item under a different id is looked up as before, and so is
  -- one that is absent.
  pub re_sign_and_retry-keeps_others :
      (id other : String) (now : ℤ) (m : DlqManager)
      → str_eq id other ≡ false
      → lookup other (re_sign_and_retry hmac marshal send id now m).0 ≡ lookup other m
  unfolding re_sign_and_retry
  re_sign_and_retry-keeps_others id other now m h = elim (Option-cases (lookup id m)) [
    | inl absent ↦ rw absent refl
    | inr (item, found) ↦ rw found (
        retry_payload-keeps_others id other item now m
          (marshal (adapt item.sink_type (stamped now item).event)) h)
  ]
