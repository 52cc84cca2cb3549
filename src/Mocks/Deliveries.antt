-- ===== src/Mocks/Deliveries.antt =====
-- What becomes of a delivery to the receiver.
use aegis_pulse.Base.{ℕ, Bool, List, String, ℤ, Text}
use aegis_pulse.Clock.{Time}
use aegis_pulse.Config.Types.{WebhooksConfig}
use aegis_pulse.Webhook.Delivery.{Job, Reply, status}
use aegis_pulse.Webhook.Dlq.{DlqManager, SignedRequest}
use aegis_pulse.Webhook.Engine.{delivery_request}
use aegis_pulse.Mocks.Receiver.{receive_webhook}

-- The receiver as the endpoint of a delivery, when attempt `i` comes after `before i` others.
abbrev pub answers_at : String → (ℕ → ℤ) → ℕ → SignedRequest → Reply
answers_at path before i request = status (receive_webhook path (before i)).1.status_code

module _ (hmac : Text → Text → List ℕ) (clock : ℕ → ℤ) (is_done : ℕ → Bool) (cfg : WebhooksConfig)
    (has_metrics : Bool) (random : String) (failed_at : Time) (job : Job) (queue : DlqManager)
    (path : String) (before : ℕ → ℤ) where
  abbrev pub reply : ℕ → Reply
  reply i = answers_at path before i (delivery_request hmac job (clock i))
