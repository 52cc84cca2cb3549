-- ===== src/RateLimit/Interface.antt =====
-- The interface `Limiter` of internal/ratelimit/limiter.go, as far as the proxy uses it, and the
-- in-memory limiter as one. An error of `Check` is only logged, and is left out.
use aegis_pulse.Base.{String, Bool, ℤ}
use aegis_pulse.RateLimit.Result.{RateLimitResult}
use aegis_pulse.RateLimit.Window.{
  InMemoryLimiter, Request, check, set_global_burst_freeze, get_overage_units,
}

pub record Limiter (L : Type 0) : Type 0 where
  pub check : L → Request → L × RateLimitResult
  pub set_global_burst_freeze : Bool → L → L
  pub is_global_burst_frozen : L → Bool
  pub get_overage_units : String → L → ℤ

abbrev pub in_memory : Limiter InMemoryLimiter
in_memory = record {
  check = check;
  set_global_burst_freeze = set_global_burst_freeze;
  is_global_burst_frozen = λ m. m.global_burst_freeze;
  get_overage_units = get_overage_units;
}
