-- ===== src/Examples/Demonstrations.antt =====
-- The mock servers' theorems on a gateway and on a job.
use aegis_pulse.Base.{
  ℕ, ◌+◌, ◌≡◌, refl, arith, List, [], ◌∷◌, pos, Dict, String, if◌then◌else◌, ltb,
}
use aegis_pulse.Cache.Breaker.{closed, opened}
use aegis_pulse.Cache.Breaker.Recovery.{length_of}
use aegis_pulse.RateLimit.Window.{InMemoryLimiter}
use aegis_pulse.Proxy.{
  Readings, World, empty_response, new_response_recorder, recorder_write_header,
}
use aegis_pulse.Mocks.Upstream.{upstream_answer}
use aegis_pulse.Mocks.Faults.{IsReached, ask_for_faults, failures, ask_for_faults-trips}
use aegis_pulse.Examples.Requests.{world, gateway, readings}

-- In front of the mock upstream, at second 7.
abbrev demonstrated : World (Dict String) ℕ ℕ ℕ InMemoryLimiter
demonstrated = record (world (pos 200)) {
  forward = λ r rec. recorder_write_header (upstream_answer (pos 7) r).status_code rec;
}

demonstrated-IsReached : IsReached demonstrated (pos 7)
unfolding recorder_write_header new_response_recorder
demonstrated-IsReached = record { status = λ r. refl; error = λ r. refl }

abbrev thrice : List Readings
thrice = readings ∷ readings ∷ readings ∷ []

ask_for_faults-trips_example :
    (ask_for_faults demonstrated "key" (empty_response []) thrice gateway).circuit_breaker.state
    ≡ (if ltb (0 + length_of (failures demonstrated thrice)) 3 then closed else opened)
ask_for_faults-trips_example =
    ask_for_faults-trips demonstrated (pos 7) thrice "key" (empty_response []) gateway 0 3
      demonstrated-IsReached refl refl refl refl (ground arith) (omega arith) (omega arith)
      (omega arith, (omega arith, (omega arith, tt)))
