-- ===== src/Mocks/Receiver.antt =====
-- The handlers of cmd/mockwebhook/main.go, and the counter that they share.
use aegis_pulse.Base.{Bool, ◌||◌, String, str_eq, if◌then◌else◌, ℤ, pos, add64}

-- What is written as a body; the mux answers a path that it does not know.
pub data ReceiverBody : Type 0 where
  generic_accepted embed_accepted blocks_accepted sink_down not_found : ReceiverBody

pub record Receipt : Type 0 where
  pub status_code : ℤ
  pub body : ReceiverBody

-- One of the three handlers that accept and count.
abbrev accept : ReceiverBody → ℤ → ℤ × Receipt
accept body count = (add64 count (pos 1), record { status_code = pos 200; body = body })

abbrev refuse : ℤ → ReceiverBody → ℤ → ℤ × Receipt
refuse code body count = (count, record { status_code = code; body = body })

-- The request for a path, with the number that were received before.
abbrev pub receive_webhook : String → ℤ → ℤ × Receipt
receive_webhook path count =
    if str_eq path "/webhook/generic"
    then accept generic_accepted count
    else if str_eq path "/webhook/discord"
    then accept embed_accepted count
    else if str_eq path "/webhook/slack"
    then accept blocks_accepted count
    else if str_eq path "/webhook/failing"
    then refuse (pos 500) sink_down count
    else refuse (pos 404) not_found count

-- The paths of the three handlers.
abbrev pub is_sink : String → Bool
is_sink path =
    str_eq path "/webhook/generic" || str_eq path "/webhook/discord" || str_eq path "/webhook/slack"
