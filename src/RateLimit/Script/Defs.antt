-- ===== src/RateLimit/Script/Defs.antt =====
-- SlidingWindowLuaScript: the script. A number of Lua is an integer here, which it is up to 2^53.
use aegis_pulse.Base.{
  ℕ, String, ◌&&◌, List, [], ◌∷◌, if◌then◌else◌, ltb_ℤ, eqb_ℤ, ℤ, pos, ◌+ℤ◌, ◌-ℤ◌, Text, codes,
}
use aegis_pulse.RateLimit.Script.Commands.{Commands}

-- KEYS and ARGV.
pub record ScriptCall : Type 0 where
  pub ratelimit_key : String
  pub billing_key : String
  pub stream_key : String
  pub now : ℤ
  pub window : ℤ
  pub soft_limit : ℤ
  pub hard_limit : ℤ
  pub req_id : Text
  pub api_key : String
  pub tier : String
  pub burst_frozen : ℤ

module _ {S : Type 0} (redis : Commands S) where
  -- ZADD and EXPIRE.
  abbrev pub log_request : ℤ → ScriptCall → S → S
  log_request at c s =
      redis.expire at c.ratelimit_key c.window (redis.zadd at c.ratelimit_key c.now c.req_id s)

  -- HINCRBY and XADD.
  abbrev pub bill : ℤ → ScriptCall → S → S
  bill at c s =
      let (s', units) = redis.hincrby at c.billing_key "units" (pos 1) s in
      redis.xadd at c.stream_key
        (("event_type", codes "BURST_OVERAGE")
          ∷ ("api_key", codes c.api_key)
          ∷ ("tier", codes c.tier)
          ∷ ("timestamp", redis.tostring c.now)
          ∷ ("units", redis.tostring units)
          ∷ [])
        s'

  abbrev pub reply : ScriptCall → Text → ℤ → Text → Text → List Text
  reply c status count remaining burst_rem =
      status
      ∷ redis.tostring count
      ∷ redis.tostring c.soft_limit
      ∷ redis.tostring c.hard_limit
      ∷ remaining
      ∷ burst_rem
      ∷ []

  -- The three branches, on the number of requests that are left.
  unfoldable pub evaluate : ℤ → ScriptCall → ℕ → S → S × List Text
  evaluate at c n s =
      let count = pos n in
      if ltb_ℤ count c.soft_limit
      then (
        log_request at c s,
        reply c (codes "NORMAL") (count +ℤ pos 1)
            (redis.tostring (c.soft_limit -ℤ (count +ℤ pos 1)))
            (redis.tostring (c.hard_limit -ℤ c.soft_limit)),
      )
      else if ltb_ℤ count c.hard_limit && eqb_ℤ c.burst_frozen (pos 0)
      then (
        bill at c (log_request at c s),
        reply c (codes "BURST") (count +ℤ pos 1) (codes "0")
            (redis.tostring (c.hard_limit -ℤ (count +ℤ pos 1))),
      )
      else (s, reply c (codes "BLOCKED") count (codes "0") (codes "0"))

  unfoldable pub sliding_window : ℤ → ScriptCall → S → S × List Text
  unfolding evaluate
  sliding_window at c s =
      let s' = redis.zremrangebyscore at c.ratelimit_key (pos 0) (c.now -ℤ c.window) s in
      evaluate at c (redis.zcard at c.ratelimit_key s') s'
