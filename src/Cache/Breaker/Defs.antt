-- ===== src/Cache/Breaker/Defs.antt =====
-- CircuitBreaker: the definitions.
use aegis_pulse.Base.{
  ◌*◌, Bool, true, false, ◌&&◌, ◌||◌, if◌then◌else◌, ltb_ℤ, leb_ℤ, ℤ, pos, add64, Text, codes,
}
use aegis_pulse.Clock.{Time, Duration, millisecond, second, sub_time}

-- `CircuitState` is an int32 with three named values.
pub data CircuitState : Type 0 where
  closed half_open opened : CircuitState
  other : ℤ → CircuitState

unfoldable pub state_text : CircuitState → Text
state_text closed = codes "CLOSED"
state_text half_open = codes "HALF-OPEN"
state_text opened = codes "OPEN"
state_text (other n) = codes "UNKNOWN"

pub record CircuitBreaker : Type 0 where
  pub state : CircuitState
  pub consecutive_failures : ℤ
  pub consecutive_successes : ℤ
  pub failure_threshold : ℤ
  pub cooldown : Duration
  pub latency_threshold : Duration
  pub last_state_change : Time
  pub emergency_cutoff : Bool
  pub half_open_probing : Bool

-- A parameter that is not positive is replaced.
abbrev pub positive_or : ℤ → ℤ → ℤ
positive_or n default = if leb_ℤ n (pos 0) then default else n

unfoldable pub new_circuit_breaker : ℤ → Duration → Duration → Time → CircuitBreaker
new_circuit_breaker failure_threshold latency_threshold cooldown now = record {
  state = closed;
  consecutive_failures = pos 0;
  consecutive_successes = pos 0;
  failure_threshold = positive_or failure_threshold (pos 3);
  cooldown = positive_or cooldown (pos (10 * second));
  latency_threshold = positive_or latency_threshold (pos (1000 * millisecond));
  last_state_change = now;
  emergency_cutoff = false;
  half_open_probing = false;
}

unfoldable pub set_emergency_cutoff : Bool → CircuitBreaker → CircuitBreaker
set_emergency_cutoff enabled cb = record cb { emergency_cutoff = enabled }

-- The `switch` of AllowRequest, with the answer.
abbrev allow_switch : CircuitState → Time → CircuitBreaker → CircuitBreaker × (Bool × CircuitState)
allow_switch closed now cb = (cb, (true, closed))
allow_switch opened now cb =
    if leb_ℤ cb.cooldown (sub_time now cb.last_state_change)
    then (
      record cb {
        state = half_open;
        last_state_change = now;
        consecutive_successes = pos 0;
        consecutive_failures = pos 0;
        half_open_probing = true;
      },
      (true, half_open),
    )
    else (cb, (false, opened))
allow_switch half_open now cb =
    if cb.half_open_probing
    then (cb, (false, half_open))
    else (record cb { half_open_probing = true }, (true, half_open))
allow_switch (other n) now cb = (cb, (true, closed))

unfoldable pub allow_request : CircuitBreaker → Time → CircuitBreaker × (Bool × CircuitState)
allow_request cb now =
    if cb.emergency_cutoff then (cb, (false, opened)) else allow_switch cb.state now cb

-- The branch of RecordSuccess in the half-open state.
abbrev success_half_open : CircuitBreaker → Time → CircuitBreaker
success_half_open cb now =
    let successes = add64 cb.consecutive_successes (pos 1) in
    let probed = record cb { consecutive_successes = successes; half_open_probing = false } in
    if leb_ℤ (pos 2) successes
    then record probed { state = closed; consecutive_failures = pos 0; last_state_change = now }
    else probed

abbrev success_switch : CircuitState → CircuitBreaker → Time → CircuitBreaker
success_switch half_open cb now = success_half_open cb now
success_switch closed cb now = record cb { consecutive_failures = pos 0 }
success_switch _ cb now = cb

unfoldable pub record_success : CircuitBreaker → Time → CircuitBreaker
record_success cb now = success_switch cb.state cb now

-- What RecordFailure does once it has counted the failure.
abbrev trip : CircuitState → CircuitBreaker → Duration → Time → CircuitBreaker
trip half_open cb latency now = record cb { state = opened; last_state_change = now }
trip _ cb latency now =
    if leb_ℤ cb.failure_threshold cb.consecutive_failures
      || (ltb_ℤ (pos 0) latency && leb_ℤ cb.latency_threshold latency)
    then record cb { state = opened; last_state_change = now }
    else cb

unfoldable pub record_failure : CircuitBreaker → Duration → Time → CircuitBreaker
record_failure cb latency now =
    trip cb.state
      (record cb {
        consecutive_failures = add64 cb.consecutive_failures (pos 1);
        half_open_probing = false;
      })
      latency now

unfoldable pub get_state : CircuitBreaker → CircuitState
get_state cb = if cb.emergency_cutoff then opened else cb.state
