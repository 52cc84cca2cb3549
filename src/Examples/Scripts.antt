-- ===== src/Examples/Scripts.antt =====
-- The Redis limiter's theorems on a run of four requests.
use aegis_pulse.Base.{
  ℕ, ◌≡◌, refl, String, true, some, inr, List, [], ◌∷◌, pos, codes, arith, lookup, insert, ◌+ℤ◌,
  ◌-ℤ◌, text_eq,
}
use aegis_pulse.RateLimit.Window.{new_in_memory_limiter}
use aegis_pulse.RateLimit.Window.Reference.{run}
use aegis_pulse.RateLimit.Window.Refinement.{observed}
use aegis_pulse.RateLimit.Script.{evaluate, sliding_window}
use aegis_pulse.RateLimit.Redis.{
  answered, lost, unreached, new_limiter, redis_check, set_freeze, read_reply,
}
use aegis_pulse.RateLimit.Redis.Refinement.{
  RedisEvent, asks, sets_freeze, redis_run, AreServed, plain, redis_run-run,
}
use aegis_pulse.RateLimit.Redis.Fallback.{redis_run-mem}
use aegis_pulse.Examples.Limits.{minute, ask, day-AreTimely}
use aegis_pulse.Examples.Sets.{redis, redis-IsRedis, Store}

abbrev ask_redis : ℕ → String → RedisEvent
ask_redis n id =
    asks (record {
      request = ask n;
      month = "2026-11";
      req_id = codes id;
      at = pos n;
      link = answered;
    })

abbrev redis_day : List RedisEvent
redis_day =
    ask_redis 1000 "id1"
    ∷ ask_redis 1001 "id2"
    ∷ sets_freeze true
    ∷ ask_redis 1002 "id3"
    ∷ ask_redis 1062 "id4"
    ∷ []

abbrev empty_store : Store
empty_store = []

redis_day-AreServed : AreServed redis-IsRedis (new_limiter (some empty_store) "") redis_day
unfolding new_limiter redis_check sliding_window evaluate read_reply set_freeze lookup insert ◌+ℤ◌
    ◌-ℤ◌ text_eq
redis_day-AreServed = (
  record { link = refl; clock = refl; fresh = refl },
  (
    record { link = refl; clock = refl; fresh = refl },
    (
      record { link = refl; clock = refl; fresh = refl },
      (record { link = refl; clock = refl; fresh = refl }, tt),
    ),
  ),
)

redis_run-run_example :
    observed (redis_run redis (new_limiter (some empty_store) "") redis_day).1
    ≡ observed (run new_in_memory_limiter (plain redis_day)).1
unfolding lookup
redis_run-run_example =
    redis_run-run redis-IsRedis minute (pos 0) empty_store "" redis_day (omega arith)
      (λ clock k le. refl) day-AreTimely redis_day-AreServed (omega arith)

-- The first call's answer is lost, and the second call does not reach the server.
abbrev dark_day : List RedisEvent
dark_day =
    asks (record {
      request = ask 1000;
      month = "2026-11";
      req_id = codes "id1";
      at = pos 1000;
      link = lost;
    })
    ∷ asks (record {
      request = ask 1001;
      month = "2026-11";
      req_id = codes "id2";
      at = pos 1001;
      link = unreached;
    })
    ∷ []

redis_run-mem_example :
    (redis_run redis (new_limiter (some empty_store) "") dark_day).1
    ≡ (run (new_limiter (some empty_store) "").mem_fallback (plain dark_day)).1
redis_run-mem_example =
    redis_run-mem redis (new_limiter (some empty_store) "") dark_day
      (inr (λ e. absurd (ground (arith, e)), (λ e. absurd (ground (arith, e)), tt)))
