-- ===== src/RateLimit/Result.antt =====
-- RateLimitResult of internal/ratelimit/limiter.go.
use aegis_pulse.Base.{ℤ, Text, codes, print_int, if◌then◌else◌, text_eq}
use aegis_pulse.Http
use aegis_pulse.Http.{Header}

-- The status texts that the code compares with, and any other that a script may return.
pub data Status : Type 0 where
  normal burst blocked burst_frozen : Status
  other : Text → Status

unfoldable pub status_text : Status → Text
status_text normal = codes "NORMAL"
status_text burst = codes "BURST"
status_text blocked = codes "BLOCKED"
status_text burst_frozen = codes "BURST_FROZEN"
status_text (other s) = s

unfoldable pub read_status : Text → Status
read_status s =
    if text_eq s (codes "NORMAL")
    then normal
    else if text_eq s (codes "BURST")
    then burst
    else if text_eq s (codes "BLOCKED")
    then blocked
    else if text_eq s (codes "BURST_FROZEN")
    then burst_frozen
    else other s

pub record RateLimitResult : Type 0 where
  pub status : Status
  pub count : ℤ
  pub limit : ℤ
  pub remaining : ℤ
  pub burst_limit : ℤ
  pub burst_remaining : ℤ

unfoldable pub apply_headers : RateLimitResult → Header → Header
unfolding status_text
apply_headers r h = Http.set "X-RateLimit-Status" (status_text r.status) (
    Http.set "X-RateLimit-Burst-Remaining" (print_int r.burst_remaining) (
      Http.set "X-RateLimit-Burst-Limit" (print_int r.burst_limit) (
        Http.set "X-RateLimit-Remaining" (print_int r.remaining)
          (Http.set "X-RateLimit-Limit" (print_int r.limit) h))))
