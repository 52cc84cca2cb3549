-- ===== src/RateLimit/Redis/Agreement.antt =====
-- The answers of the script, read back by the limiter.
use text.Mathlib.TextLemmas.{append_cancel_left}
use aegis_pulse.Base.{
  ℕ, ◌+◌, ◌^◌, ◌<◌, ◌≡◌, refl, ap, String, Bool, not, ◌&&◌, Option, some, List, if◌then◌else◌,
  ltb_ℤ, eqb_ℤ, ℤ, pos, pos_part, neg_part, ◌+ℤ◌, str_eq, eq_iff, arith, Text, codes, text_eq,
  print_int, parse_int-print_int, parse_or_nearest, parse_or_nearest-parse_int, Bool-cases, inl,
  inr,
}
use aegis_pulse.RateLimit.Result.{Status, RateLimitResult, read_status}
use aegis_pulse.RateLimit.Window.Reference.{verdict, is_admitted}
use aegis_pulse.RateLimit.Script.{ScriptCall, log_request, evaluate, reply}
use aegis_pulse.RateLimit.Script.Commands.{Commands, IsRedis}
use aegis_pulse.RateLimit.Script.Admission.{scores-bill}
use aegis_pulse.RateLimit.Redis.Defs.{ratelimit_key, read_reply}

pub str_eq-ratelimit_key : (a b : String) → str_eq (ratelimit_key a) (ratelimit_key b) ≡ str_eq a b
str_eq-ratelimit_key a b = ground (
  arith,
  eq_iff (ratelimit_key a) (ratelimit_key b),
  eq_iff a b,
  append_cancel_left "ratelimit:" a b,
  λ (e : a ≡ b). ap ratelimit_key e,
)

-- A number that Lua prints in full.
abbrev pub IsSmall : ℤ → Type 0
IsSmall n = (pos_part n < 10 ^ 14) × (neg_part n < 10 ^ 14)

-- The status and the count that the limiter reads, if it reads any.
abbrev pub SaysOf : Option RateLimitResult → Status × ℤ → Type 0
SaysOf o v = (res : RateLimitResult) × (o ≡ some res) × (res.status ≡ v.0) × (res.count ≡ v.1)

plus_one : (n : ℕ) → pos n +ℤ pos 1 ≡ pos (n + 1)
unfolding ◌+ℤ◌
plus_one n = ground arith

module _ {S : Type 0} {redis : Commands S} {scores : ℤ → String → S → List ℤ}
    {is_member : ℤ → String → Text → S → Bool} (law : IsRedis redis scores is_member) where
  count_read : (n : ℤ) → IsSmall n → parse_or_nearest (redis.tostring n) ≡ n
  count_read n (high, low) =
      rw (law.tostring-small n high low)
        (parse_or_nearest-parse_int (print_int n) n (parse_int-print_int n (ground arith)))

  reply_read :
      (c : ScriptCall) (status : Text) (count : ℤ) (remaining burst_rem : Text)
      → IsSmall count
      → SaysOf
          (read_reply (reply redis c status count remaining burst_rem))
          (read_status status, count)
  unfolding read_reply
  reply_read c status count remaining burst_rem small = (_, refl, refl, count_read count small)

  module _ (c : ScriptCall) (frozen : Bool) (n : ℕ) (s : S)
      (flag : c.burst_frozen ≡ (if frozen then pos 1 else pos 0)) where
    frozen_flag : eqb_ℤ c.burst_frozen (pos 0) ≡ not frozen
    frozen_flag = rw flag (ground arith)

    -- The reply carries the reference's verdict.
    pub evaluate-verdict :
        n + 1 < 10 ^ 14
        → SaysOf
            (read_reply (evaluate redis c.now c n s).1)
            (verdict frozen c.soft_limit c.hard_limit n)
    unfolding evaluate read_status text_eq
    evaluate-verdict few = elim (Bool-cases (ltb_ℤ (pos n) c.soft_limit)) [
      | inl low ↦
          rw (low, plus_one n) (reply_read c (codes "NORMAL") (pos (n + 1)) _ _ (few, omega arith))
      | inr full ↦ elim (Bool-cases (ltb_ℤ (pos n) c.hard_limit && not frozen)) [
        | inl room ↦
            rw (full, frozen_flag, room, plus_one n)
              (reply_read c (codes "BURST") (pos (n + 1)) _ _ (few, omega arith))
        | inr shut ↦
            rw (full, frozen_flag, shut)
              (reply_read c (codes "BLOCKED") (pos n) _ _ (omega arith, omega arith))
      ]
    ]

    -- The sorted sets are those of a logged request if the verdict admits it.
    pub scores-evaluate :
        (at : ℤ) (j : String)
        → scores at j (evaluate redis c.now c n s).0 ≡ (
            if is_admitted (verdict frozen c.soft_limit c.hard_limit n).0
            then scores at j (log_request redis c.now c s)
            else scores at j s)
    unfolding evaluate
    scores-evaluate at j = elim (Bool-cases (ltb_ℤ (pos n) c.soft_limit)) [
      | inl low ↦ rw low refl
      | inr full ↦ elim (Bool-cases (ltb_ℤ (pos n) c.hard_limit && not frozen)) [
        | inl room ↦ rw (full, frozen_flag, room) (scores-bill law c at j _)
        | inr shut ↦ rw (full, frozen_flag, shut) refl
      ]
    ]
