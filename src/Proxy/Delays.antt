-- ===== src/Proxy/Delays.antt =====
-- The jitter switch, and when the simulated delay is one that the random generator accepts.
use aegis_pulse.Base.{
  ℕ, ◌+◌, ◌<◌, ◌≡◌, ◌↔◌, Bool, true, false, not, ℤ, pos, add64, sub64, wrap64, two63, arith, leb_ℤ,
  ltb_ℤ, ◌+ℤ◌, ◌-ℤ◌,
}
use aegis_pulse.Config.Types.{JitterConfig}
use aegis_pulse.Proxy.Jitter.{panics, toggle_jitter, is_jitter_active, jitter_delay}

-- A toggle answers with the opposite of what was active, and that is what is active after it, whatever
-- the override and the configuration are.
pub toggle_jitter-flips :
    (curr : ℤ) (enabled : Bool)
    → ((toggle_jitter curr enabled).1 ≡ not (is_jitter_active curr enabled))
      × (is_jitter_active (toggle_jitter curr enabled).0 enabled ≡ (toggle_jitter curr enabled).1)
unfolding toggle_jitter is_jitter_active
toggle_jitter-flips curr enabled = (ground arith, ground arith)

-- The settings of a configuration with both delays set.
abbrev pub delays : ℕ → ℕ → JitterConfig → JitterConfig
delays min max j = record j { min_delay_ms = pos min; max_delay_ms = pos max }

-- A request that the jitter hits makes the handler panic exactly where the lower delay is above the
-- upper one and above 500. Both delays are positive and their successors are in the range of an int64.
pub jitter_delay-panics_iff :
    (min max : ℕ) (j : JitterConfig) (roll : ℤ) (intn : ℤ → ℤ)
    → 0 < min
    → 0 < max
    → min + 1 < two63
    → max + 1 < two63
    → ltb_ℤ roll j.percentage ≡ true
    → leb_ℤ j.percentage (pos 0) ≡ false
    → (jitter_delay true (delays min max j) roll intn ≡ panics) ↔ ((max < min) × (500 < min))
unfolding jitter_delay add64 sub64 wrap64 ◌+ℤ◌ ◌-ℤ◌
jitter_delay-panics_iff min max j roll intn h1 h2 h3 h4 h5 h6 = ground arith
