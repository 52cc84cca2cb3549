-- ===== src/Tui/View.antt =====
-- `View` of internal/tui/app.go: the screen of the dashboard in the gateway's process, as the text that is
-- given to the terminal. Numbers with a fraction and the time since the start are formatted by parameters.
use aegis_pulse.Base.{
  ◌-◌, ◌/◌, Bool, true, false, Option, none, some, List, [], ◌∷◌, ◌++◌, String, if◌then◌else◌,
  leb_ℤ, eqb_ℤ, ◌-ℤ◌, suc, ℤ, pos, negsuc, add64, sub64, length, get_elem?, replicate, Text, codes,
  print_int,
}
use aegis_pulse.Cache.Breaker.{CircuitBreaker, CircuitState, half_open, opened, get_state}
use aegis_pulse.Metrics.Snapshot.{Samples, Snapshot, get_snapshot}
use aegis_pulse.Proxy.{World, is_jitter_active}
use aegis_pulse.Tui.Look.{Lipgloss, Theme, themes, Styles, make_styles, render_modal}
use aegis_pulse.Tui.Model.{Model}
use aegis_pulse.Tui.Render.{Plots, render_sparkline, render_horizontal_bar}

-- `%.4f` and `%.2f`.
pub record Formats (F : Type 0) : Type 0 where
  pub four_places : F → Text
  pub two_places : F → Text

-- A panic of the first is a panic of the whole.
infixl 5 ◌>>=◌
abbrev pub ◌>>=◌ {ℓ κ} : {A : Type ℓ} {B : Type κ} → Option A → (A → Option B) → Option B
none >>= g = none
some a >>= g = g a

-- `%5d`
abbrev pub five_wide : ℤ → Text
five_wide n = replicate (5 - length (print_int n)) 32 ++ print_int n

-- fmt.Sprintf, once its arguments are texts.
abbrev pub sprintf : List Text → Text
sprintf [] = []
sprintf (t ∷ ts) = t ++ sprintf ts

-- strings.Join(lines, "\n")
abbrev pub join_lines : List String → Text
join_lines [] = []
join_lines (l ∷ []) = codes l
join_lines (l ∷ k ∷ rest) = codes l ++ 10 ∷ join_lines (k ∷ rest)

abbrev pub width_or_default : ℤ → ℤ
width_or_default w = if leb_ℤ w (pos 0) then pos 100 else w

-- `w/2 - 3` of a width that is positive
abbrev pub half_box : ℤ → ℤ
half_box (pos w) = sub64 (pos (w / 2)) (pos 3)
half_box (negsuc w) = sub64 (pos 0 -ℤ pos (suc w / 2)) (pos 3)

-- The badge of the breaker.
pub data Badge : Type 0 where
  healthy probing diverted cutoff_active : Badge

abbrev state_badge : CircuitState → Badge
state_badge half_open = probing
state_badge opened = diverted
state_badge _ = healthy

unfoldable pub cb_badge : CircuitBreaker → Badge
cb_badge cb = if cb.emergency_cutoff then cutoff_active else state_badge (get_state cb)

abbrev pub badge_text : Badge → String
badge_text healthy = "[CLOSED - HEALTHY]"
badge_text probing = "[HALF-OPEN - PROBING]"
badge_text diverted = "[OPEN - TRAFFIC DIVERTED]"
badge_text cutoff_active = "[EMERGENCY CUTOFF ACTIVE]"

abbrev badge_style : {Style : Type 0} → Styles Style → Badge → Style
badge_style styles healthy = styles.success
badge_style styles probing = styles.warning
badge_style styles diverted = styles.error
badge_style styles cutoff_active = styles.error

module _ {Style F : Type 0} (lip : Lipgloss Style) (f : Samples F) (p : Plots F)
    (fmt : Formats F) where
  -- A bar of twenty runes in two styles.
  unfoldable pub draw_bar : Styles Style → Style → ℤ → ℤ → Option Text
  draw_bar styles filled_style current most = render_horizontal_bar p current most 20 >>= λ bar.
      some (lip.render filled_style bar.0 ++ lip.render styles.dim bar.1)

  unfoldable pub draw_sparkline : Styles Style → List F → Option Text
  draw_sparkline styles values =
      render_sparkline p values 30 >>= λ s. some (lip.render styles.sparkline s)

  abbrev total_of : ℤ → ℤ → ℤ → ℤ
  total_of normal burst blocked =
      let total = add64 (add64 normal burst) blocked in if eqb_ℤ total (pos 0) then pos 1 else total

  -- The three lines of the traffic, which both dashboards show.
  unfoldable pub traffic_text : Styles Style → ℤ → ℤ → ℤ → Option Text
  unfolding draw_bar
  traffic_text styles normal burst blocked = do
    let total = total_of normal burst blocked
    normal_bar ← draw_bar styles styles.success normal total
    burst_bar ← draw_bar styles styles.warning burst total
    blocked_bar ← draw_bar styles styles.error blocked total
    some (
        sprintf (
          codes "TRAFFIC BREAKDOWN:\n  NORMAL : "
          ∷ five_wide normal
          ∷ codes "  "
          ∷ normal_bar
          ∷ codes "\n  BURST  : "
          ∷ five_wide burst
          ∷ codes "  "
          ∷ burst_bar
          ∷ codes "\n  BLOCKED: "
          ∷ five_wide blocked
          ∷ codes "  "
          ∷ blocked_bar
          ∷ []))

  abbrev on_off : Styles Style → Style → Bool → String → Text
  on_off styles style true text = lip.render style (codes text)
  on_off styles style false text = lip.render styles.dim (codes "[OFF]")

  -- The boxes below the header, which both dashboards lay out alike.
  abbrev pub lay_out : Styles Style → ℤ → Text → Text → Text → List String → Text
  lay_out styles w header telemetry latency logs =
      let half = lip.width (half_box w) styles.box in
      lip.join_vertical (
        header
        ∷ lip.join_horizontal (lip.render half telemetry ∷ lip.render half latency ∷ [])
        ∷ lip.render (lip.width (sub64 w (pos 4)) styles.box)
            (codes "SECURITY & GATEWAY ACTIVITY STREAM:\n" ++ join_lines logs)
        ∷ lip.render (lip.width (sub64 w (pos 4)) styles.alert_box) (
            codes
              "🚨 TWO-STEP PANIC HOTKEYS: [Ctrl+K] Key Kill-Switch | [Ctrl+B] Global Burst Freeze | [Ctrl+U] Emergency Upstream Cutoff")
        ∷ [])

  module _ {S D P L : Type 0} (env : World S D P F L) where
    abbrev telemetry_content : Styles Style → Model S D P F L → Snapshot F → Text → Text
    telemetry_content styles m snap traffic =
        let g = m.gateway in
        let badge = cb_badge g.circuit_breaker in
        sprintf (
          traffic
          ∷ codes "\n\nCIRCUIT BREAKER  : "
          ∷ lip.render (badge_style styles badge) (codes (badge_text badge))
          ∷ codes "\nUPSTREAM JITTER  : "
          ∷ on_off styles styles.warning
              (is_jitter_active g.jitter_override g.config.cfg.upstream.jitter.enabled)
              "[ACTIVE: 200-500ms]"
          ∷ codes "\nBURST FREEZE     : "
          ∷ on_off styles styles.error (env.limiter.is_global_burst_frozen g.limiter) "[FROZEN]"
          ∷ codes "\nREPLAY BLOCKS    : "
          ∷ lip.render styles.warning (print_int snap.replay_blocked ++ codes " blocked")
          ∷ codes "\nFALLBACK CACHED  : "
          ∷ print_int snap.cache_fallbacks
          ∷ codes " requests"
          ∷ codes "\nDLQ PENDING      : "
          ∷ print_int snap.dlq_pending
          ∷ codes " webhooks"
          ∷ codes "\nBURST REVENUE    : "
          ∷ lip.render styles.success (codes "$" ++ fmt.four_places m.revenue ++ codes " USD")
          ∷ [])

    abbrev latency_content : Snapshot F → Text → Text
    latency_content snap sparkline = sprintf (
        codes "REAL-TIME LATENCY SPECTRUM:\n\n  p95 LATENCY: "
        ∷ fmt.two_places snap.p95_latency_ms
        ∷ codes " ms\n  p99 LATENCY: "
        ∷ fmt.two_places snap.p99_latency_ms
        ∷ codes " ms\n\n  LATENCY TREND (Recent 30 reqs):\n  "
        ∷ sparkline
        ∷ codes
            "\n\nCHAOS & DRILL CONTROLS:\n  [Space]  Unleash sudden traffic burst (50-250 reqs)\n  [L]      Toggle upstream latency jitter (200-500ms)\n  [A]      Inject expired timestamp replay attack\n  [T]      Cycle Cyberpunk / Dracula / Mocha theme\n  [q]      Quit dashboard"
        ∷ [])

    abbrev banner : Text → Theme → Text
    banner uptime theme = sprintf (
        codes " AEGISPULSE CYBER-DECK COCKPIT v1.0 | UPTIME: "
        ∷ uptime
        ∷ codes " | THEME: "
        ∷ codes theme.name
        ∷ codes " "
        ∷ [])

    unfoldable pub view_panels : Text → Theme → ℤ → Model S D P F L → Snapshot F → Option Text
    unfolding traffic_text draw_sparkline cb_badge
    view_panels uptime theme w m snap = do
      let styles = make_styles lip theme
      traffic ← traffic_text styles snap.normal_count snap.burst_count snap.blocked_count
      sparkline ← draw_sparkline styles snap.recent_samples
      some (
          lay_out styles w (lip.render styles.header (banner uptime theme))
            (telemetry_content styles m snap traffic) (latency_content snap sparkline) m.logs)

    -- `uptime` is the time since the start, and `none` a panic.
    unfoldable pub view : Text → Model S D P F L → Option Text
    unfolding view_panels
    view uptime m = do
      let w = width_or_default m.width
      snap ← get_snapshot f m.gateway.metrics
      theme ← get_elem? themes m.theme_idx
      if m.modal.active
          then some (render_modal lip m.modal (make_styles lip theme) w)
          else view_panels uptime theme w m snap
