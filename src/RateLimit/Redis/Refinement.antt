-- ===== src/RateLimit/Redis/Refinement.antt =====
-- While Redis answers, the Redis limiter answers as the in-memory limiter does.
use aegis_pulse.Base.{
  ℕ, ◌+◌, ◌^◌, ◌<◌, ◌≤◌, ◌≡◌, refl, sym, ◌∙◌, ap, ap₂, String, Bool, true, false, Option, none,
  some, List, [], ◌∷◌, ◌++◌, if◌then◌else◌, ℤ, pos, ◌-ℤ◌, ◌≤ℤ◌, length, length-append, str_eq,
  arith, Text, Bool-cases, inl, inr, subst,
}
use aegis_pulse.RateLimit.Result.{Status, RateLimitResult}
use aegis_pulse.RateLimit.Window.{Request, new_in_memory_limiter}
use aegis_pulse.RateLimit.Window.Prune.{keep}
use aegis_pulse.RateLimit.Window.Reference.{
  Event, request, freeze, run, Reference, times, verdict, is_admitted, in_window, reference_check,
  reference_run, IsSound, AreTimely,
}
use aegis_pulse.RateLimit.Window.Refinement.{observed, run-eq-reference, times-append}
use aegis_pulse.RateLimit.Script.{evaluate, sliding_window, log_request}
use aegis_pulse.RateLimit.Script.Commands.{Commands, IsRedis}
use aegis_pulse.RateLimit.Script.Admission.{pruned}
use aegis_pulse.RateLimit.Redis.Defs.{
  RedisLimiter, RedisRequest, answered, ratelimit_key, script_call, redis_check, set_freeze,
  new_limiter, read_reply,
}
use aegis_pulse.RateLimit.Redis.Agreement.{SaysOf, evaluate-verdict, scores-evaluate}
use aegis_pulse.RateLimit.Redis.Tracking.{
  Tracks, Tracks-same, counted, Tracks-refused, Tracks-logged,
}

pub data RedisEvent : Type 0 where
  asks : RedisRequest → RedisEvent
  sets_freeze : Bool → RedisEvent

-- The same history for the in-memory limiter.
abbrev pub plain : List RedisEvent → List Event
plain [] = []
plain (asks q ∷ es) = request q.request ∷ plain es
plain (sets_freeze b ∷ es) = freeze b ∷ plain es

module _ {S : Type 0} (redis : Commands S) where
  -- The answers to the requests, in order.
  unfoldable pub redis_run :
      RedisLimiter S → List RedisEvent → RedisLimiter S × List RateLimitResult
  unfolding redis_check set_freeze
  redis_run r [] = (r, [])
  redis_run r (asks q ∷ es) =
      let (r', a) = redis_check redis r q in
      let (last, answers) = redis_run r' es in (last, a ∷ answers)
  redis_run r (sets_freeze b ∷ es) = redis_run (set_freeze b r) es

module _ {S : Type 0} {redis : Commands S} {scores : ℤ → String → S → List ℤ}
    {is_member : ℤ → String → Text → S → Bool} (law : IsRedis redis scores is_member) where
  -- What a call needs of the store `s`: it is answered, the server's clock shows the gateway's second,
  -- and the random member is new to the pruned set.
  pub record IsServed (r : RedisLimiter S) (q : RedisRequest) (s : S) : Type 0 where
    pub link : q.link ≡ answered
    pub clock : q.at ≡ q.request.now
    pub fresh :
        is_member q.request.now
          (ratelimit_key q.request.api_key)
          q.req_id
          (pruned law (script_call r q) s)
        ≡ false

  abbrev pub IsServedBy : RedisLimiter S → RedisRequest → Option S → Type 0
  IsServedBy r q none = ⊥
  IsServedBy r q (some s) = IsServed r q s

  -- Every call of a run is served by the store that it finds.
  abbrev pub AreServed : RedisLimiter S → List RedisEvent → Type 0
  AreServed r [] = Unit
  AreServed r (asks q ∷ es) = IsServedBy r q r.client × AreServed (redis_check redis r q).0 es
  AreServed r (sets_freeze b ∷ es) = AreServed (set_freeze b r) es

  abbrev next_store : RedisLimiter S → RedisRequest → S → S
  next_store r q s = (sliding_window redis q.request.now (script_call r q) s).0

  module _ (r : RedisLimiter S) (q : RedisRequest) (s : S) (n : ℕ) (client : r.client ≡ some s)
      (served : IsServed r q s)
      (size : redis.zcard q.request.now
          (ratelimit_key q.request.api_key)
          (pruned law (script_call r q) s)
        ≡ n)
      (few : n + 1 < 10 ^ 14) where
    answer :
        SaysOf
          (read_reply (sliding_window redis q.request.now (script_call r q) s).1)
          (verdict r.global_burst_freeze q.request.soft_limit q.request.hard_limit n)
    unfolding sliding_window
    answer = rw size (
        evaluate-verdict law (script_call r q) r.global_burst_freeze n
          (pruned law (script_call r q) s) refl few)

    check-served :
        ((redis_check redis r q).0 ≡ record r { client = some (next_store r q s) })
        × (◌≡◌ {A = Status × ℤ}
            ((redis_check redis r q).1.status, (redis_check redis r q).1.count)
            (verdict r.global_burst_freeze q.request.soft_limit q.request.hard_limit n))
    unfolding redis_check
    check-served =
        let (res, read, status, count) = answer in
        rw (client, served.link, served.clock, read) (refl, ap₂ (λ a b. (a, b)) status count)

  admitted-times :
      (ref : Reference) (q : Request) (j : String)
      → is_admitted (reference_check ref q).1.0 ≡ true
      → times j (reference_check ref q).0.history
        ≡ (if str_eq q.api_key j then times j ref.history ++ q.now ∷ [] else times j ref.history)
  unfolding reference_check
  admitted-times ref q j hit = rw hit (times-append j q.api_key q.now ref.history)

  refused-times :
      (ref : Reference) (q : Request) (j : String)
      → is_admitted (reference_check ref q).1.0 ≡ false
      → times j (reference_check ref q).0.history ≡ times j ref.history
  unfolding reference_check
  refused-times ref q j miss = rw miss refl

  module _ (window : String → ℤ) (r : RedisLimiter S) (q : RedisRequest) (s : S) (last : ℤ)
      (ref : Reference) (tracks : Tracks law window last s ref.history)
      (sound : IsSound window q.request) (later : last ≤ℤ q.request.now) (epoch : pos 0 ≤ℤ last)
      (served : IsServed r q s) (freezes : r.global_burst_freeze ≡ ref.frozen) where
    size :
        redis.zcard q.request.now (ratelimit_key q.request.api_key) (pruned law (script_call r q) s)
        ≡ in_window ref q.request
    size =
        counted law window (script_call r q) q.request.api_key last s ref tracks refl
          sound.window_of later epoch

    store_next :
        next_store r q s
        ≡ (evaluate redis q.request.now
            (script_call r q)
            (in_window ref q.request)
            (pruned law (script_call r q) s)).0
    unfolding sliding_window
    store_next =
        ap
          (λ n.
            (evaluate redis q.request.now (script_call r q) n (pruned law (script_call r q) s)).0)
          size

    scores-next :
        (clock : ℤ) (j : String)
        → scores clock j (next_store r q s) ≡ (
            if is_admitted (reference_check ref q.request).1.0
            then scores clock j
                (log_request redis q.request.now (script_call r q) (pruned law (script_call r q) s))
            else scores clock j (pruned law (script_call r q) s))
    unfolding reference_check
    scores-next clock j =
        ap (scores clock j) store_next
        ∙ rw (← freezes) (
            scores-evaluate law (script_call r q) r.global_burst_freeze (in_window ref q.request)
              (pruned law (script_call r q) s) refl clock j)

    Tracks-next :
        Tracks law window q.request.now (next_store r q s) (reference_check ref q.request).0.history
    Tracks-next = elim (Bool-cases (is_admitted (reference_check ref q.request).1.0)) [
      | inl hit ↦
          Tracks-same law window _ _ _ _ (λ clock j. scores-next clock j ∙ rw hit refl)
            (Tracks-logged law window (script_call r q) q.request.api_key last s ref tracks refl
              sound.window_of later epoch _ served.fresh (λ j. admitted-times ref q.request j hit))
      | inr miss ↦
          Tracks-same law window _ _ _ _ (λ clock j. scores-next clock j ∙ rw miss refl)
            (Tracks-refused law window (script_call r q) q.request.api_key last s ref tracks refl
              sound.window_of later epoch _ (λ j. refused-times ref q.request j miss))
    ]

  length-keep : (n : ℤ) (ts : List ℤ) → length (keep n ts) ≤ length ts
  length-keep n [] = omega arith
  length-keep n (t ∷ ts) = ground (arith, length-keep n ts)

  length-times : (k : String) (h : List (String × ℤ)) → length (times k h) ≤ length h
  length-times k [] = omega arith
  length-times k ((j, t) ∷ h) = ground (arith, length-times k h)

  few_in_window : (ref : Reference) (q : Request) → in_window ref q ≤ length ref.history
  few_in_window ref q = omega (
    arith,
    length-keep (q.now -ℤ q.window_sec) (times q.api_key ref.history),
    length-times q.api_key ref.history,
  )

  frozen-reference_check :
      (ref : Reference) (q : Request) → (reference_check ref q).0.frozen ≡ ref.frozen
  unfolding reference_check
  frozen-reference_check ref q = ground arith

  length-reference_check :
      (ref : Reference) (q : Request)
      → length (reference_check ref q).0.history ≤ length ref.history + 1
  unfolding reference_check
  length-reference_check ref q = ground (arith, length-append ref.history ((q.api_key, q.now) ∷ []))

  redis_run-Tracks :
      (window : String → ℤ) (last : ℤ) (s : S) (r : RedisLimiter S) (ref : Reference)
      (es : List RedisEvent)
      → r.client ≡ some s
      → r.global_burst_freeze ≡ ref.frozen
      → Tracks law window last s ref.history
      → AreTimely window last (plain es)
      → pos 0 ≤ℤ last
      → AreServed r es
      → length ref.history + length es < 10 ^ 14
      → observed (redis_run redis r es).1 ≡ reference_run ref (plain es)
  unfolding redis_run reference_run reference_check
  redis_run-Tracks window last s r ref [] client freezes tracks timely epoch served few = refl
  redis_run-Tracks window last s r ref (sets_freeze b ∷ es) client freezes tracks timely epoch
        served few =
      redis_run-Tracks window last s (set_freeze b r) (record ref { frozen = b }) es client refl
        tracks timely epoch served (omega arith)
  redis_run-Tracks window last s r ref (asks q ∷ es) client freezes tracks timely epoch served few =
      let (sound, later, rest) = timely in
      let here : IsServed r q s = subst (IsServedBy r q) client served.0 in
      let (next, said) =
        check-served r q s (in_window ref q.request) client here
          (size window r q s last ref tracks sound later epoch here freezes)
          (omega (arith, few_in_window ref q.request)) in
      ap₂ ◌∷◌ (said ∙ rw freezes refl) (
        redis_run-Tracks window q.request.now (next_store r q s) (redis_check redis r q).0
          (reference_check ref q.request).0 es (ap (λ r'. r'.client) next)
          (ap (λ r'. r'.global_burst_freeze) next
            ∙ freezes
            ∙ sym (frozen-reference_check ref q.request))
          (Tracks-next window r q s last ref tracks sound later epoch here freezes) rest
          (omega arith) served.1 (omega (arith, length-reference_check ref q.request)))

  -- Where Redis keeps its documented promises and holds no sorted set of a key at the start, on every
  -- history of fewer than 10^14 calls in which the clock does not step back, each key keeps to one
  -- window and each call is answered by a server on the same second: the script gives each request
  -- the status and the count that the in-memory limiter gives it.
  pub redis_run-run :
      (window : String → ℤ) (start : ℤ) (s : S) (stream : String) (es : List RedisEvent)
      → pos 0 ≤ℤ start
      → ((at : ℤ) (k : String) → start ≤ℤ at → scores at (ratelimit_key k) s ≡ [])
      → AreTimely window start (plain es)
      → AreServed (new_limiter (some s) stream) es
      → length es < 10 ^ 14
      → observed (redis_run redis (new_limiter (some s) stream) es).1
        ≡ observed (run new_in_memory_limiter (plain es)).1
  unfolding new_limiter
  redis_run-run window start s stream es epoch empty timely served few =
      redis_run-Tracks window start s (new_limiter (some s) stream)
        (record { history = []; frozen = false }) es refl refl
        (record {
          low = λ k at le. rw (empty at k le) tt;
          upto = λ k at le. rw (empty at k le) tt;
          past = λ k. tt;
          live = λ k at n le h. rw (empty at k le) refl;
        })
        timely epoch served (omega arith)
      ∙ sym (run-eq-reference window start (plain es) timely)
