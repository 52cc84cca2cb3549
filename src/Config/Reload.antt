-- ===== src/Config/Reload.antt =====
-- What a configuration has after it is loaded, reloaded or changed.
use aegis_pulse.Base.{◌≡◌, refl, Bool, ℤ, pos, ◌≤ℤ◌, ◌<ℤ◌, arith}
use aegis_pulse.Config.Types.{Config, JitterConfig}
use aegis_pulse.Config.Manager.{ConfigManager, Env, apply_env_overrides, jitter_after}

module _ {Float64 : Type 0} where
  -- Overriding a configuration twice with one environment is overriding it once.
  pub apply_env_overrides_idem :
      (env : Env) (cfg : Config Float64)
      → apply_env_overrides env (apply_env_overrides env cfg) ≡ apply_env_overrides env cfg
  unfolding apply_env_overrides
  apply_env_overrides_idem env cfg = ground arith

  -- A configuration that stands under an environment is what the environment makes of it.
  abbrev pub Stands : Env → ConfigManager Float64 → Type 0
  Stands env cm = apply_env_overrides env cm.cfg ≡ cm.cfg

-- A percentage is one, and no delay is negative or 0.
pub record IsUsable (j : JitterConfig) : Type 0 where
  pub percent : (pos 0 ≤ℤ j.percentage) × (j.percentage ≤ℤ pos 100)
  pub delay : pos 0 <ℤ j.min_delay_ms

-- `SetJitter` keeps the percentage between 0 and 100 and the least delay positive, whatever its
-- arguments, and takes over each argument that passes its test.
pub jitter_after-IsUsable :
    (enabled : Bool) (percentage min_ms max_ms : ℤ) (j : JitterConfig)
    → IsUsable j
    → let k = jitter_after enabled percentage min_ms max_ms j in
      IsUsable k
      × (k.enabled ≡ enabled)
      × ((pos 0 ≤ℤ percentage) × (percentage ≤ℤ pos 100) → k.percentage ≡ percentage)
      × (pos 0 <ℤ min_ms → k.min_delay_ms ≡ min_ms)
      × (min_ms ≤ℤ max_ms → k.max_delay_ms ≡ max_ms)
unfolding jitter_after
jitter_after-IsUsable enabled percentage min_ms max_ms j h =
    (ground arith, refl, λ p. ground arith, λ p. ground arith, λ p. ground arith)
