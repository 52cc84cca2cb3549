-- ===== src/Tui/Headless.antt =====
-- RunHeadless of internal/tui/app.go: what it logs, one report for each tick until the context is done.
use aegis_pulse.Base.{ℤ, Option, none, some, List, [], ◌∷◌, Text}
use aegis_pulse.Cache.Breaker.{CircuitBreaker, get_state, state_text}
use aegis_pulse.Config.{ConfigManager}
use aegis_pulse.Metrics.{Metrics}
use aegis_pulse.Metrics.Snapshot.{Samples, Snapshot, get_snapshot}

-- The numbers of a line of the log.
pub record Report (F : Type 0) : Type 0 where
  pub normal : ℤ
  pub burst : ℤ
  pub blocked : ℤ
  pub replay_blocked : ℤ
  pub fallback_served : ℤ
  pub dlq : ℤ
  pub breaker : Text
  pub revenue : F

-- What the loop selects: a tick, with what the shared objects hold by then, or the end of the context.
pub data Wake (P F : Type 0) : Type 0 where
  ticked : Metrics P F → CircuitBreaker → ConfigManager F → Wake P F
  done : Wake P F

module _ {F : Type 0} (f : Samples F) (revenue : ℤ → F → F) where
  abbrev report_of : CircuitBreaker → ConfigManager F → Snapshot F → Report F
  report_of cb config snap = record {
    normal = snap.normal_count;
    burst = snap.burst_count;
    blocked = snap.blocked_count;
    replay_blocked = snap.replay_blocked;
    fallback_served = snap.cache_fallbacks;
    dlq = snap.dlq_pending;
    breaker = state_text (get_state cb);
    revenue = revenue snap.burst_count config.cfg.monetization.cost_per_credit;
  }

  abbrev reported : Option (Report F) → Option (List (Report F)) → Option (List (Report F))
  reported (some r) (some rs) = some (r ∷ rs)
  reported _ _ = none

  abbrev report : {P : Type 0} → Metrics P F → CircuitBreaker → ConfigManager F → Option (Report F)
  report m cb config = elim (get_snapshot f m) [
    | none ↦ none
    | some snap ↦ some (report_of cb config snap)
  ]

  -- `none` is a panic.
  unfoldable pub run_headless : {P : Type 0} → List (Wake P F) → Option (List (Report F))
  run_headless [] = some []
  run_headless (ticked m cb config ∷ wakes) = reported (report m cb config) (run_headless wakes)
  run_headless (done ∷ wakes) = some []
