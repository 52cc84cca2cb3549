-- ===== src/Tui/RemoteView.antt =====
-- `View` of cmd/tui/main.go: the screen of the stand-alone dashboard.
use aegis_pulse.Base.{
  ◌<◌, ◌≡◌, refl, Bool, true, false, Option, some, [], ◌∷◌, ◌++◌, String, if◌then◌else◌, ℤ, pos,
  length, get_elem?, get_elem?-in, Text, codes, print_int, if-splits,
}
use aegis_pulse.Metrics.Snapshot.{Samples, AreSound}
use aegis_pulse.Tui.Look.{Lipgloss, Theme, themes, Styles, make_styles, render_modal}
use aegis_pulse.Tui.Page.{Telemetry}
use aegis_pulse.Tui.Remote.{Remote}
use aegis_pulse.Tui.Render.{Plots, AreShares}
use aegis_pulse.Tui.Screens.{>>=-some, traffic_text-some, draw_sparkline-some}
use aegis_pulse.Tui.View.{
  Formats, ◌>>=◌, sprintf, width_or_default, draw_sparkline, traffic_text, lay_out,
}

-- `%v` of a Boolean.
abbrev shown_bool : Bool → Text
shown_bool true = codes "true"
shown_bool false = codes "false"

module _ {Style F : Type 0} (lip : Lipgloss Style) (f : Samples F) (p : Plots F)
    (fmt : Formats F) where
  abbrev remote_telemetry : Styles Style → Remote → Telemetry F → Text → Text
  remote_telemetry styles m t traffic = sprintf (
      traffic
      ∷ codes "\n\nCIRCUIT BREAKER  : "
      ∷ lip.render styles.success (codes "[" ++ codes m.cb_state ++ codes "]")
      ∷ codes "\nUPSTREAM JITTER  : "
      ∷ shown_bool m.jitter_active
      ∷ codes "\nBURST FREEZE     : "
      ∷ shown_bool m.burst_frozen
      ∷ codes "\nREPLAY BLOCKS    : "
      ∷ print_int t.replay_blocked
      ∷ codes "\nFALLBACK CACHED  : "
      ∷ print_int t.cache_fallbacks
      ∷ codes " requests"
      ∷ codes "\nDLQ PENDING      : "
      ∷ print_int t.dlq_pending
      ∷ codes " webhooks"
      ∷ codes "\nBURST REVENUE    : "
      ∷ lip.render styles.success (codes "$" ++ fmt.four_places t.revenue ++ codes " USD")
      ∷ [])

  abbrev remote_latency : Telemetry F → Text → Text
  remote_latency t sparkline = sprintf (
      codes "REAL-TIME LATENCY SPECTRUM:\n\n  p95 LATENCY: "
      ∷ fmt.two_places t.p95_latency
      ∷ codes " ms\n  p99 LATENCY: "
      ∷ fmt.two_places t.p99_latency
      ∷ codes " ms\n\n  LATENCY TREND (Recent "
      ∷ print_int (pos (length t.recent_samples))
      ∷ codes " probes):\n  "
      ∷ sparkline
      ∷ codes
          "\n\nCHAOS & DRILL CONTROLS:\n  [Space]  Unleash sudden traffic burst (100 reqs)\n  [L]      Toggle upstream latency jitter\n  [A]      Inject expired timestamp replay attack\n  [T]      Cycle Cyberpunk / Dracula / Mocha theme\n  [q]      Quit cockpit"
      ∷ [])

  abbrev remote_banner : String → Theme → Text
  remote_banner gateway_url theme = sprintf (
      codes " AEGISPULSE CYBER-DECK COCKPIT (STANDALONE) | TARGET: "
      ∷ codes gateway_url
      ∷ codes " | THEME: "
      ∷ codes theme.name
      ∷ codes " "
      ∷ [])

  unfoldable pub remote_panels : String → Theme → ℤ → Remote → Telemetry F → Option Text
  unfolding traffic_text draw_sparkline
  remote_panels gateway_url theme w m t = do
    let styles = make_styles lip theme
    traffic ← traffic_text lip f p fmt styles t.normal_count t.burst_count t.blocked_count
    sparkline ← draw_sparkline lip f p fmt styles t.recent_samples
    some (
        lay_out lip f p fmt styles w (lip.render styles.header (remote_banner gateway_url theme))
          (remote_telemetry styles m t traffic) (remote_latency t sparkline) m.logs)

  -- `none` is a panic.
  unfoldable pub remote_view : String → Remote → Telemetry F → Option Text
  unfolding remote_panels
  remote_view gateway_url m t = do
    let w = width_or_default m.width
    theme ← get_elem? themes m.theme_idx
    if m.modal.active
        then some (render_modal lip m.modal (make_styles lip theme) w)
        else remote_panels gateway_url theme w m t

  -- With one of the four themes, the stand-alone dashboard is drawn whatever it has read of the page.
  pub remote_view-some :
      (sound : AreSound f) (shares : AreShares p) (gateway_url : String) (m : Remote)
      (t : Telemetry F)
      → m.theme_idx < 4
      → (s : Text) × (remote_view gateway_url m t ≡ some s)
  unfolding remote_view remote_panels
  remote_view-some sound shares gateway_url m t themed =
      >>=-some _ _ (get_elem?-in themes m.theme_idx themed) (λ theme.
        if-splits (λ o. (s : Text) × (o ≡ some s)) m.modal.active
          (some (render_modal lip m.modal (make_styles lip theme) (width_or_default m.width)))
          (remote_panels gateway_url theme (width_or_default m.width) m t) (λ covered. (_, refl))
          (λ free.
            >>=-some _ _
              (traffic_text-some lip f p fmt sound shares (make_styles lip theme) t.normal_count
                t.burst_count t.blocked_count)
              (λ a.
                >>=-some _ _
                  (draw_sparkline-some lip f p fmt sound shares (make_styles lip theme)
                    t.recent_samples)
                  (λ b. (_, refl)))))
