-- ===== src/Cache/Breaker/Invariant.antt =====
-- What holds of a circuit breaker between two calls.
use aegis_pulse.Base.{
  ◌≡◌, ◌<◌, Bool, false, List, [], ◌∷◌, ℤ, pos, pos_part, ◌⊎◌, neg_part, ◌<ℤ◌, ◌+ℤ◌, wrap64, add64,
  IsInt64, two63, arith,
}
use aegis_pulse.Clock.{Time, Duration}
use aegis_pulse.Cache.Breaker.Defs.{
  closed, half_open, opened, CircuitBreaker, new_circuit_breaker, set_emergency_cutoff,
  allow_request, record_success, record_failure,
}

-- One call of a method, with the clock that it reads.
pub data Call : Type 0 where
  allows : Time → Call
  succeeds : Time → Call
  fails : Duration → Time → Call
  cuts : Bool → Call

unfoldable pub step : CircuitBreaker → Call → CircuitBreaker
unfolding allow_request record_success record_failure set_emergency_cutoff
step cb (allows now) = (allow_request cb now).0
step cb (succeeds now) = record_success cb now
step cb (fails latency now) = record_failure cb latency now
step cb (cuts b) = set_emergency_cutoff b cb

unfoldable pub run : CircuitBreaker → List Call → CircuitBreaker
run cb [] = cb
run cb (c ∷ cs) = run (step cb c) cs

pub record Inv (cb : CircuitBreaker) : Type 0 where
  pub threshold_pos : pos 0 <ℤ cb.failure_threshold
  pub threshold_fits : pos_part cb.failure_threshold < two63
  pub cooldown_pos : pos 0 <ℤ cb.cooldown
  pub latency_pos : pos 0 <ℤ cb.latency_threshold
  -- the state is one of the three that have a name
  pub named : (cb.state ≡ closed) ⊎ (cb.state ≡ half_open) ⊎ (cb.state ≡ opened)
  -- a closed breaker is below its threshold
  pub closed_below :
      cb.state ≡ closed
      → (neg_part cb.consecutive_failures ≡ 0)
        × (cb.consecutive_failures <ℤ cb.failure_threshold)
        × (cb.half_open_probing ≡ false)
  -- a half-open one has seen no failure, and one success at most
  pub half_open_clean :
      cb.state ≡ half_open
      → (cb.consecutive_failures ≡ pos 0)
        × ((cb.consecutive_successes ≡ pos 0) ⊎ (cb.consecutive_successes ≡ pos 1))
  pub opened_idle : cb.state ≡ opened → cb.half_open_probing ≡ false

-- A new breaker is closed with its counters at 0, whatever the configuration.
pub new_circuit_breaker-Inv :
    (failures latency cooldown now : ℤ)
    → IsInt64 failures
    → Inv (new_circuit_breaker failures latency cooldown now)
unfolding new_circuit_breaker
new_circuit_breaker-Inv failures latency cooldown now h = ground arith

allow_request-Inv : (cb : CircuitBreaker) (now : Time) → Inv cb → Inv (allow_request cb now).0
unfolding allow_request
allow_request-Inv cb now v = ground arith

record_success-Inv : (cb : CircuitBreaker) (now : Time) → Inv cb → Inv (record_success cb now)
unfolding record_success add64 wrap64 ◌+ℤ◌
record_success-Inv cb now v = ground arith

record_failure-Inv :
    (cb : CircuitBreaker) (latency now : ℤ) → Inv cb → Inv (record_failure cb latency now)
unfolding record_failure add64 wrap64 ◌+ℤ◌
record_failure-Inv cb latency now v = ground arith

step-Inv : (cb : CircuitBreaker) (c : Call) → Inv cb → Inv (step cb c)
unfolding step
step-Inv cb (allows now) v = allow_request-Inv cb now v
step-Inv cb (succeeds now) v = record_success-Inv cb now v
step-Inv cb (fails latency now) v = record_failure-Inv cb latency now v
step-Inv cb (cuts b) v = ground arith

run_from-Inv : (cb : CircuitBreaker) (cs : List Call) → Inv cb → Inv (run cb cs)
unfolding run
run_from-Inv cb [] v = v
run_from-Inv cb (c ∷ cs) v = run_from-Inv (step cb c) cs (step-Inv cb c v)

-- After any calls on a new breaker, whatever its configuration and the clock: the thresholds are
-- positive, the state is one of the three named ones, a closed breaker has fewer failures than its
-- threshold and no probe out, a half-open one has no failure and at most one success, and an open
-- one has no probe out. The configured threshold is an `int`.
pub run-Inv :
    (failures latency cooldown now : ℤ) (cs : List Call)
    → IsInt64 failures
    → Inv (run (new_circuit_breaker failures latency cooldown now) cs)
run-Inv failures latency cooldown now cs h =
    run_from-Inv _ cs (new_circuit_breaker-Inv failures latency cooldown now h)
