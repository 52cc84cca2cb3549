-- ===== src/Mocks/Upstream.antt =====
-- The handlers of cmd/mockupstream/main.go.
use aegis_pulse.Base.{◌*◌, String, str_eq, if◌then◌else◌, ℤ, pos}
use aegis_pulse.Clock.{Duration, millisecond}
use aegis_pulse.Proxy.{ClientRequest}

-- What is given to the JSON encoder: for a resource the time, the path, the method and the key; for any
-- other path the path and the time.
pub data MockJson : Type 0 where
  resource_json : ℤ → String → String → String → MockJson
  delayed_json fault_json : MockJson
  reachable_json : String → ℤ → MockJson

-- The time that a handler sleeps, and its answer, whose type is JSON.
pub record Answer : Type 0 where
  pub slept : Duration
  pub status_code : ℤ
  pub json : MockJson

abbrev at_once : ℤ → MockJson → Answer
at_once code json = record { slept = pos 0; status_code = code; json = json }

abbrev resource : ℤ → ClientRequest → Answer
resource now r = at_once (pos 200) (resource_json now r.path r.method r.api_key)

abbrev slow : Answer
slow = record { slept = pos (1200 * millisecond); status_code = pos 200; json = delayed_json }

abbrev fault : Answer
fault = at_once (pos 500) fault_json

abbrev catch_all : ℤ → ClientRequest → Answer
catch_all now r = at_once (pos 200) (reachable_json r.path now)

-- The handler that the mux picks.
abbrev pub upstream_answer : ℤ → ClientRequest → Answer
upstream_answer now r =
    if str_eq r.path "/api/resource"
    then resource now r
    else if str_eq r.path "/api/slow"
    then slow
    else if str_eq r.path "/api/fault"
    then fault
    else catch_all now r
