-- ===== src/Examples/Resilience.antt =====
-- The circuit breaker's theorems.
use aegis_pulse.Base.{◌≤◌, inl, inr, refl, true, false, List, [], ◌∷◌, pos, arith}
use aegis_pulse.Cache.Breaker.{CircuitBreaker, closed, half_open, opened, new_circuit_breaker}
use aegis_pulse.Cache.Breaker.Invariant.{Call, allows, succeeds, fails, cuts, Inv, run, run-Inv}
use aegis_pulse.Cache.Breaker.Probing.{count_allowed, count_allowed-le-one}

abbrev calls : List Call
calls =
    fails (pos 5) (pos 10)
    ∷ fails (pos 5000) (pos 11)
    ∷ allows (pos 40)
    ∷ succeeds (pos 41)
    ∷ cuts true
    ∷ []

run-Inv_example : Inv (run (new_circuit_breaker (pos 3) (pos 1000) (pos 20) (pos 0)) calls)
run-Inv_example = run-Inv (pos 3) (pos 1000) (pos 20) (pos 0) calls (ground arith)

-- A breaker with the threshold 3, opened at 100.
abbrev tripped : CircuitBreaker
tripped = record {
  state = opened;
  consecutive_failures = pos 3;
  consecutive_successes = pos 0;
  failure_threshold = pos 3;
  cooldown = pos 20;
  latency_threshold = pos 1000;
  last_state_change = pos 100;
  emergency_cutoff = false;
  half_open_probing = false;
}

abbrev probed : CircuitBreaker
probed = record tripped {
  state = half_open;
  consecutive_failures = pos 0;
  half_open_probing = true;
}

abbrev fresh : CircuitBreaker
fresh = record tripped { state = closed; consecutive_failures = pos 0 }

count_allowed-le-one_example : count_allowed tripped (pos 110 ∷ pos 120 ∷ pos 121 ∷ []) ≤ 1
count_allowed-le-one_example =
    count_allowed-le-one tripped (pos 110 ∷ pos 120 ∷ pos 121 ∷ []) (inl refl)

tripped-Inv : Inv tripped
tripped-Inv = record {
  threshold_pos = omega arith;
  threshold_fits = omega arith;
  cooldown_pos = omega arith;
  latency_pos = omega arith;
  named = inr (inr refl);
  closed_below = λ e. cc;
  half_open_clean = λ e. cc;
  opened_idle = λ e. refl;
}

probed-Inv : Inv probed
probed-Inv = record {
  threshold_pos = omega arith;
  threshold_fits = omega arith;
  cooldown_pos = omega arith;
  latency_pos = omega arith;
  named = inr (inl refl);
  closed_below = λ e. cc;
  half_open_clean = λ e. (refl, inl refl);
  opened_idle = λ e. cc;
}
