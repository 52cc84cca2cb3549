-- ===== src/Examples/Dashboards.antt =====
-- The dashboards' theorems on a short session: a hotkey, a confirmation, the end.
use aegis_pulse.Base.{
  ℕ, ◌*◌, ◌/◌, arith, ◌≡◌, refl, true, false, none, some, List, [], ◌∷◌, String, pos, Dict,
}
use aegis_pulse.RateLimit.Window.{InMemoryLimiter}
use aegis_pulse.Metrics.Snapshot.{Samples, AreSound}
use aegis_pulse.Proxy.{empty_response}
use aegis_pulse.Tui.Modal.{new_modal_state}
use aegis_pulse.Tui.Model.{Model, new_model}
use aegis_pulse.Tui.Update.{Msg, tick, key, Moment}
use aegis_pulse.Tui.Remote.{
  Remote, PanicStatus, ask_cutoff, remote_tick, remote_key, remote_update, serve_asks,
  remote_cutoff_sticks,
}
use aegis_pulse.Examples.Requests.{world, gateway, admin}

abbrev moment : Moment
moment = record { clock = "12:00:00"; readings = admin }

abbrev pub session : List (Moment × Msg)
session =
    (moment, key "ctrl+b")
    ∷ (moment, tick)
    ∷ (moment, key "y")
    ∷ (moment, key "t")
    ∷ (moment, key "q")
    ∷ []

abbrev pub dashboard : Model (Dict String) ℕ ℕ ℕ InMemoryLimiter
dashboard = new_model gateway 0 true

abbrev standalone : Remote
standalone = record {
  theme_idx = 0;
  width = pos 80;
  height = pos 24;
  modal = new_modal_state;
  logs = [];
  cb_state = "CLOSED";
  jitter_active = false;
  burst_frozen = false;
}

abbrev cut : PanicStatus
cut = record {
  circuit_breaker = "CLOSED";
  emergency_cutoff = true;
  burst_frozen = false;
  jitter_active = false;
}

remote_cutoff_sticks_example :
    let polled = (remote_update true none "12:00:00" (remote_tick (some cut)) standalone).0 in
    let opened = (remote_update true none "12:00:00" (remote_key "ctrl+u") polled).0 in
    let asks = (remote_update true none "12:00:00" (remote_key "y") opened).1 in
    (asks ≡ ask_cutoff true ∷ [])
    × ((serve_asks
          (world (pos 200))
          admin
          (empty_response [])
          asks
          gateway).circuit_breaker.emergency_cutoff
        ≡ true)
remote_cutoff_sticks_example =
    remote_cutoff_sticks (world (pos 200)) cut standalone admin true none "12:00:00"
      (empty_response []) gateway refl refl

-- Shares of whole milliseconds.
abbrev pub shares : Samples ℕ
shares = record {
  zero = 0;
  p95 = 95;
  p99 = 99;
  thousand = 1000;
  of_length = λ n. n;
  times = λ x y. x * y / 100;
  to_int = λ x. pos x;
  sort = λ xs. xs;
}

pub shares-AreSound : AreSound shares
shares-AreSound = record {
  share95 = λ n. omega arith;
  share99 = λ n. omega arith;
  length-sort = λ xs. refl;
}
