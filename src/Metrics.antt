-- ===== src/Metrics.antt =====
-- internal/metrics/metrics.go. The Prometheus registry is a parameter: a store, and what its counters,
-- gauges and histograms do to it. `Float64` is a type of which only what is listed here is known.
pub mod Snapshot
use aegis_pulse.Base.{
  List, [], ◌∷◌, ◌++◌, String, if◌then◌else◌, leb, ℤ, pos, add64, length, drop, Text, codes,
}
use aegis_pulse.Cache.Breaker.{CircuitState, closed, half_open, opened}
use aegis_pulse.RateLimit.Result.{Status, normal, burst, blocked, burst_frozen, status_text}

pub record Prometheus (P Float64 : Type 0) : Type 0 where
  -- name and label values
  pub inc : String → List Text → P → P
  pub set_gauge : String → List Text → Float64 → P → P
  pub reset : String → P → P
  pub observe : String → Float64 → P → P
  pub of_int : ℤ → Float64
  pub to_int : Float64 → ℤ

pub record Metrics (P Float64 : Type 0) : Type 0 where
  pub reg : P
  pub normal_count : ℤ
  pub burst_count : ℤ
  pub blocked_count : ℤ
  pub replay_blocked : ℤ
  pub cache_fallbacks : ℤ
  pub dlq_pending : ℤ
  pub redis_memory : ℤ
  pub recent_latencies : List Float64

unfoldable pub new_metrics : {P Float64 : Type 0} → P → Metrics P Float64
new_metrics reg = record {
  reg = reg;
  normal_count = pos 0;
  burst_count = pos 0;
  blocked_count = pos 0;
  replay_blocked = pos 0;
  cache_fallbacks = pos 0;
  dlq_pending = pos 0;
  redis_memory = pos 0;
  recent_latencies = [];
}

-- The samples that are kept, once there are a hundred the oldest goes.
unfoldable pub push_latency {ℓ} : {A : Type ℓ} → A → List A → List A
push_latency x xs = (if leb 100 (length xs) then drop 1 xs else xs) ++ x ∷ []

module _ {P Float64 : Type 0} (prom : Prometheus P Float64) where
  abbrev count_status : Status → Metrics P Float64 → Metrics P Float64
  count_status normal m = record m { normal_count = add64 m.normal_count (pos 1) }
  count_status burst m = record m { burst_count = add64 m.burst_count (pos 1) }
  count_status blocked m = record m { blocked_count = add64 m.blocked_count (pos 1) }
  count_status burst_frozen m = record m { blocked_count = add64 m.blocked_count (pos 1) }
  count_status _ m = m

  unfoldable pub record_request : Text → Status → Metrics P Float64 → Metrics P Float64
  unfolding status_text
  record_request tier status m = count_status status (record m {
    reg = prom.inc "aegispulse_requests_total" (tier ∷ status_text status ∷ []) m.reg;
  })

  unfoldable pub record_burst_overage : Text → Text → Metrics P Float64 → Metrics P Float64
  record_burst_overage tier api_key m = record m {
    reg = prom.inc "aegispulse_burst_overages_total" (tier ∷ api_key ∷ []) m.reg;
  }

  unfoldable pub record_latency : Float64 → Metrics P Float64 → Metrics P Float64
  unfolding push_latency
  record_latency seconds m = record m {
    reg = prom.observe "aegispulse_upstream_latency_seconds" seconds m.reg;
    recent_latencies = push_latency seconds m.recent_latencies;
  }

  unfoldable pub record_replay_blocked : Text → Metrics P Float64 → Metrics P Float64
  record_replay_blocked tier m = record m {
    reg = prom.inc "aegispulse_replay_attacks_blocked_total" (tier ∷ []) m.reg;
    replay_blocked = add64 m.replay_blocked (pos 1);
  }

  unfoldable pub record_cache_fallback : Metrics P Float64 → Metrics P Float64
  record_cache_fallback m = record m {
    reg = prom.inc "aegispulse_cache_fallback_total" [] m.reg;
    cache_fallbacks = add64 m.cache_fallbacks (pos 1);
  }

  -- The gauge of the state's own label; a text that is not one of the three leaves none.
  abbrev gauge_state : CircuitState → P → P
  gauge_state closed reg =
      prom.set_gauge "aegispulse_circuit_breaker_state" (codes "closed" ∷ []) (prom.of_int (pos 0))
        reg
  gauge_state half_open reg =
      prom.set_gauge "aegispulse_circuit_breaker_state" (codes "half_open" ∷ [])
        (prom.of_int (pos 1)) reg
  gauge_state opened reg =
      prom.set_gauge "aegispulse_circuit_breaker_state" (codes "open" ∷ []) (prom.of_int (pos 2))
        reg
  gauge_state _ reg = reg

  unfoldable pub set_circuit_breaker_state_metric :
      CircuitState → Metrics P Float64 → Metrics P Float64
  set_circuit_breaker_state_metric state m = record m {
    reg = gauge_state state (prom.reset "aegispulse_circuit_breaker_state" m.reg);
  }

  unfoldable pub set_dlq_count : ℤ → Metrics P Float64 → Metrics P Float64
  set_dlq_count count m = record m {
    reg = prom.set_gauge "aegispulse_dlq_pending_total" [] (prom.of_int count) m.reg;
    dlq_pending = count;
  }

  unfoldable pub set_revenue : Float64 → Metrics P Float64 → Metrics P Float64
  set_revenue amount m = record m {
    reg = prom.set_gauge "aegispulse_monetized_burst_revenue_dollars" [] amount m.reg;
  }

  unfoldable pub set_redis_memory : Float64 → Metrics P Float64 → Metrics P Float64
  set_redis_memory bytes m = record m {
    reg = prom.set_gauge "aegispulse_redis_memory_bytes" [] bytes m.reg;
    redis_memory = prom.to_int bytes;
  }
