-- ===== src/Proxy/Jitter.antt =====
-- The jitter switch and the simulated delay of internal/proxy/proxy.go.
use aegis_pulse.Base.{
  Bool, true, false, if◌then◌else◌, ◌&&◌, ltb_ℤ, leb_ℤ, eqb_ℤ, ℤ, pos, negsuc, add64, sub64,
}
use aegis_pulse.Config.Types.{JitterConfig}

-- `jitterOverride` is an int32: -1 is the configuration's setting, 0 is off and 1 is on.
abbrev pub override_default : ℤ
override_default = negsuc 0

abbrev pub new_jitter_state : ℤ → Bool → ℤ
new_jitter_state curr enabled =
    if eqb_ℤ curr (pos 1)
    then pos 0
    else if eqb_ℤ curr (pos 0)
    then pos 1
    else if enabled
    then pos 0
    else pos 1

-- The new override, and the answer.
unfoldable pub toggle_jitter : ℤ → Bool → ℤ × Bool
toggle_jitter curr enabled =
    (new_jitter_state curr enabled, eqb_ℤ (new_jitter_state curr enabled) (pos 1))

unfoldable pub is_jitter_active : ℤ → Bool → Bool
is_jitter_active curr enabled =
    if eqb_ℤ curr (pos 1) then true else if eqb_ℤ curr (pos 0) then false else enabled

-- What the step does to the request: it goes on, after a sleep of some milliseconds or none, or the
-- handler panics, as rand.Intn does on a bound that is not positive.
pub data Delay : Type 0 where
  no_delay : Delay
  sleeps : ℤ → Delay
  panics : Delay

abbrev pub min_delay_of : JitterConfig → ℤ
min_delay_of j = if leb_ℤ j.min_delay_ms (pos 0) then pos 200 else j.min_delay_ms

abbrev pub max_delay_of : JitterConfig → ℤ
max_delay_of j = if ltb_ℤ j.max_delay_ms (min_delay_of j) then pos 500 else j.max_delay_ms

abbrev pub percentage_of : JitterConfig → ℤ
percentage_of j = if leb_ℤ j.percentage (pos 0) then pos 25 else j.percentage

-- The bound of the second draw.
abbrev pub spread : JitterConfig → ℤ
spread j = add64 (sub64 (max_delay_of j) (min_delay_of j)) (pos 1)

-- `roll` is the draw of rand.Intn(100), and `intn` what the second draw gives for its bound.
unfoldable pub jitter_delay : Bool → JitterConfig → ℤ → (ℤ → ℤ) → Delay
jitter_delay active j roll intn =
    if active && ltb_ℤ roll (percentage_of j)
    then (if leb_ℤ (spread j) (pos 0)
        then panics
        else sleeps (add64 (min_delay_of j) (intn (spread j))))
    else no_delay
