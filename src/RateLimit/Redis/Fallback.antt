-- ===== src/RateLimit/Redis/Fallback.antt =====
-- While Redis does not answer, the Redis limiter is its in-memory limiter.
use aegis_pulse.Base.{
  ◌≡◌, refl, ◌∙◌, ap, ap₂, Option, none, some, List, [], ◌∷◌, ℤ, ◌⊎◌, inl, inr, arith,
}
use aegis_pulse.RateLimit.Result.{RateLimitResult}
use aegis_pulse.RateLimit.Window.{check}
use aegis_pulse.RateLimit.Window.Reference.{run}
use aegis_pulse.RateLimit.Script.{ScriptCall}
use aegis_pulse.RateLimit.Script.Commands.{Commands}
use aegis_pulse.RateLimit.Redis.Defs.{
  RedisLimiter, RedisRequest, Link, answered, lost, unreached, script_call, run_script, check_with,
  redis_check, set_freeze,
}
use aegis_pulse.RateLimit.Redis.Refinement.{RedisEvent, asks, sets_freeze, plain, redis_run}

-- No call gets the script's answer.
abbrev pub AreDown : List RedisEvent → Type 0
AreDown [] = Unit
AreDown (asks q ∷ es) = (q.link ≡ answered → ⊥) × AreDown es
AreDown (sets_freeze b ∷ es) = AreDown es

module _ {S : Type 0} (redis : Commands S) where
  -- The limiter after a call in memory.
  abbrev Falls : RedisLimiter S → RedisRequest → RedisLimiter S × RateLimitResult → Type 0
  Falls r q (r', a) =
      let (mem, res) = check r.mem_fallback q.request in
      (a ≡ res) × (r'.mem_fallback ≡ mem) × (r.client ≡ none → r'.client ≡ none)

  script-none :
      (l : Link) (clock : ℤ) (c : ScriptCall) (s : S)
      → (l ≡ answered → ⊥)
      → (run_script redis l clock c s).1 ≡ none
  script-none answered clock c s h = absurd (h refl)
  script-none lost clock c s h = refl
  script-none unreached clock c s h = refl

  check_with-Falls :
      (r : RedisLimiter S) (q : RedisRequest) (o : Option S)
      → o ≡ r.client
      → (o ≡ none) ⊎ (q.link ≡ answered → ⊥)
      → Falls r q (check_with redis r q o)
  check_with-Falls r q none same down = (refl, refl, λ e. e)
  check_with-Falls r q (some s) same (inl e) = absurd (ground (arith, e))
  check_with-Falls r q (some s) same (inr silent) =
      rw (script-none q.link q.at (script_call r q) s silent)
        (refl, refl, λ e. absurd (ground (arith, same, e)))

  redis_check-Falls :
      (r : RedisLimiter S) (q : RedisRequest)
      → (r.client ≡ none) ⊎ (q.link ≡ answered → ⊥)
      → Falls r q (redis_check redis r q)
  unfolding redis_check
  redis_check-Falls r q down = check_with-Falls r q r.client refl down

  -- Where there is no Redis client, or no call gets the script's answer, whether the script ran or not:
  -- on every history the Redis limiter gives the answers that its in-memory limiter gives, whole.
  pub redis_run-mem :
      (r : RedisLimiter S) (es : List RedisEvent)
      → (r.client ≡ none) ⊎ AreDown es
      → (redis_run redis r es).1 ≡ (run r.mem_fallback (plain es)).1
  unfolding redis_run run set_freeze
  redis_run-mem r [] down = refl
  redis_run-mem r (sets_freeze b ∷ es) down = redis_run-mem (set_freeze b r) es down
  redis_run-mem r (asks q ∷ es) (inl e) =
      let (res, mem, absent) = redis_check-Falls r q (inl e) in
      ap₂ ◌∷◌ res (
        redis_run-mem (redis_check redis r q).0 es (inl (absent e))
        ∙ ap (λ m. (run m (plain es)).1) mem)
  redis_run-mem r (asks q ∷ es) (inr (silent, rest)) =
      let (res, mem, absent) = redis_check-Falls r q (inr silent) in
      ap₂ ◌∷◌ res
        (redis_run-mem (redis_check redis r q).0 es (inr rest) ∙ ap (λ m. (run m (plain es)).1) mem)
