-- ===== src/Examples/Limits.antt =====
-- The limiter's theorems on a short run of requests.
use aegis_pulse.Base.{
  ℕ, map, ◌+◌, ◌-ℤ◌, length, lookup, ◌≡◌, ◌≤◌, ◌<◌, refl, true, false, String, List, [], ◌∷◌, ℤ,
  pos, two63, arith,
}
use aegis_pulse.RateLimit.Result.{RateLimitResult, normal, burst, blocked}
use aegis_pulse.RateLimit.Window.{new_in_memory_limiter, Request, check, get_overage_units}
use aegis_pulse.RateLimit.Window.Reference.{
  Event, request, freeze, run, reference_run, IsSound, AreTimely,
}
use aegis_pulse.RateLimit.Window.Refinement.{observed, run-eq-reference}
use aegis_pulse.RateLimit.Window.Profile.{repeated, run-profile}
use aegis_pulse.RateLimit.Window.Rate.{admitted, in_span, AreWithin, run_rate}
use aegis_pulse.RateLimit.Window.Quota.{AreLimits, Conserves, check-Conserves}
use aegis_pulse.RateLimit.Window.Overages.{bursts, units-run}

abbrev pub minute : String → ℤ
minute k = pos 60

-- A request of the key "a" with the limits 1 and 2.
abbrev pub ask : ℕ → Request
ask n = record {
  api_key = "a";
  tier = "free";
  soft_limit = pos 1;
  hard_limit = pos 2;
  window_sec = pos 60;
  now = pos n;
}

-- The second request is in the burst range, the third is blocked, and the last is a minute later.
abbrev pub day : List Event
day =
    request (ask 1000)
    ∷ request (ask 1001)
    ∷ freeze true
    ∷ request (ask 1002)
    ∷ request (ask 1062)
    ∷ []

ask-IsSound : (n : ℕ) → 60 ≤ n → n < two63 → IsSound minute (ask n)
unfolding ◌-ℤ◌
ask-IsSound n low high = record {
  soft = ground arith;
  hard = ground arith;
  window_of = refl;
  start = ground arith;
}

pub day-AreTimely : AreTimely minute (pos 0) day
day-AreTimely = (
  ask-IsSound 1000 (omega arith) (omega arith),
  omega arith,
  (
    ask-IsSound 1001 (omega arith) (omega arith),
    omega arith,
    (
      ask-IsSound 1002 (omega arith) (omega arith),
      omega arith,
      (ask-IsSound 1062 (omega arith) (omega arith), omega arith, tt),
    ),
  ),
)

run-eq-reference_example :
    observed (run new_in_memory_limiter day).1
    ≡ reference_run (record { history = []; frozen = false }) day
run-eq-reference_example = run-eq-reference minute (pos 0) day day-AreTimely

day-AreWithin : AreWithin 2 "a" day
day-AreWithin = (
  λ e. (omega arith, omega arith),
  (
    λ e. (omega arith, omega arith),
    (λ e. (omega arith, omega arith), (λ e. (omega arith, omega arith), tt)),
  ),
)

run_rate_example :
    in_span (pos 60) (pos 1001) (admitted "a" day (run new_in_memory_limiter day).1) ≤ 2
run_rate_example = run_rate minute (pos 0) day 2 "a" (pos 1001) day-AreTimely day-AreWithin

ask-AreLimits : AreLimits (ask 1000)
ask-AreLimits = record {
  soft_pos = refl;
  ordered = omega arith;
  soft = ground arith;
  hard = ground arith;
}

check-Conserves_example :
    Conserves new_in_memory_limiter (ask 1000) (check new_in_memory_limiter (ask 1000))
check-Conserves_example = check-Conserves new_in_memory_limiter (ask 1000) ask-AreLimits

bursts-le-length :
    (k : String) (es : List Event) (answers : List RateLimitResult)
    → bursts k es answers ≤ length es
bursts-le-length k [] answers = omega arith
bursts-le-length k (request r ∷ es) [] = omega arith
bursts-le-length k (request r ∷ es) (a ∷ answers) = ground (arith, bursts-le-length k es answers)
bursts-le-length k (freeze b ∷ es) answers = omega (arith, bursts-le-length k es answers)

units-run_example :
    get_overage_units "a" (run new_in_memory_limiter day).0
    ≡ pos (0 + bursts "a" day (run new_in_memory_limiter day).1)
unfolding lookup new_in_memory_limiter
units-run_example =
    units-run new_in_memory_limiter day "a" 0 refl
      (omega (arith, bursts-le-length "a" day (run new_in_memory_limiter day).1))

-- Three requests of one minute.
asks-AreTimely :
    AreTimely minute (pos 1000) (repeated (ask 1000) (pos 1000 ∷ pos 1001 ∷ pos 1002 ∷ []))
asks-AreTimely = (
  ask-IsSound 1000 (omega arith) (omega arith),
  omega arith,
  (
    ask-IsSound 1001 (omega arith) (omega arith),
    omega arith,
    (ask-IsSound 1002 (omega arith) (omega arith), omega arith, tt),
  ),
)

run-profile_example :
    map
      (λ a. a.status)
      (run new_in_memory_limiter (repeated (ask 1000) (pos 1000 ∷ pos 1001 ∷ pos 1002 ∷ []))).1
    ≡ normal ∷ burst ∷ blocked ∷ []
unfolding ◌-ℤ◌
run-profile_example =
    run-profile (ask 1000) 1 2 (pos 1000) (pos 1000 ∷ pos 1001 ∷ pos 1002 ∷ []) refl refl
      (omega arith) asks-AreTimely
      ((omega arith, refl, (omega arith, refl, (omega arith, refl, tt))))
