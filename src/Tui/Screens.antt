-- ===== src/Tui/Screens.antt =====
-- The dashboard is always drawn, and what its badge of the breaker says is so.
use aegis_pulse.Base.{
  ◌<◌, ◌≡◌, refl, ap, ◌∙◌, Bool, true, false, Option, some, List, ℤ, get_elem?-in, Text, not, leb_ℤ,
  if-splits, arith,
}
use aegis_pulse.Clock.{Time, sub_time}
use aegis_pulse.Cache.Breaker.{CircuitBreaker}
use aegis_pulse.Metrics.Snapshot.{Samples, AreSound, Snapshot, get_snapshot-some}
use aegis_pulse.Proxy.{World}
use aegis_pulse.Tui.Look.{Lipgloss, Theme, themes, Styles, make_styles, render_modal}
use aegis_pulse.Tui.Model.{Model}
use aegis_pulse.Tui.Render.{Plots, AreShares, render_sparkline-some, render_horizontal_bar-fits}
use aegis_pulse.Tui.View.{
  Formats, ◌>>=◌, Badge, healthy, probing, diverted, cutoff_active, draw_bar, draw_sparkline,
  traffic_text, width_or_default, view_panels, view,
}

-- What each badge says of a request at some time: healthy lets it through, the cutoff does not, OPEN does
-- once the cooldown is over, and HALF-OPEN does while no probe is under way.
abbrev pub admits : Badge → CircuitBreaker → Time → Bool
admits healthy cb now = true
admits cutoff_active cb now = false
admits diverted cb now = leb_ℤ cb.cooldown (sub_time now cb.last_state_change)
admits probing cb now = not cb.half_open_probing

-- The value of a chain whose first step gives one.
pub >>=-some {ℓ κ} :
    {A : Type ℓ} {B : Type κ} (o : Option A) (g : A → Option B)
    → (a : A) × (o ≡ some a)
    → ((a : A) → (b : B) × (g a ≡ some b))
    → (b : B) × ((o >>= g) ≡ some b)
>>=-some o g (a, there) next = let (b, last) = next a in (b, ap (λ o. o >>= g) there ∙ last)

module _ {Style F : Type 0} (lip : Lipgloss Style) (f : Samples F) (p : Plots F) (fmt : Formats F)
    (sound : AreSound f) (shares : AreShares p) where
  draw_bar-some :
      (styles : Styles Style) (style : Style) (current most : ℤ)
      → (s : Text) × (draw_bar lip f p fmt styles style current most ≡ some s)
  unfolding draw_bar
  draw_bar-some styles style current most =
      let (filled, empty, drawn, size) = render_horizontal_bar-fits p shares current most 20 in
      >>=-some _ _ ((filled, empty), drawn) (λ bar. (_, refl))

  pub draw_sparkline-some :
      (styles : Styles Style) (values : List F)
      → (s : Text) × (draw_sparkline lip f p fmt styles values ≡ some s)
  unfolding draw_sparkline
  draw_sparkline-some styles values =
      >>=-some _ _ (render_sparkline-some p values 30 (omega arith)) (λ s. (_, refl))

  pub traffic_text-some :
      (styles : Styles Style) (normal burst blocked : ℤ)
      → (s : Text) × (traffic_text lip f p fmt styles normal burst blocked ≡ some s)
  unfolding traffic_text
  traffic_text-some styles normal burst blocked =
      >>=-some _ _ (draw_bar-some styles styles.success normal _) (λ a.
        >>=-some _ _ (draw_bar-some styles styles.warning burst _)
          (λ b. >>=-some _ _ (draw_bar-some styles styles.error blocked _) (λ c. (_, refl))))

  module _ {S D P L : Type 0} (env : World S D P F L) where
    view_panels-some :
        (uptime : Text) (theme : Theme) (w : ℤ) (m : Model S D P F L) (snap : Snapshot F)
        → (s : Text) × (view_panels lip f p fmt env uptime theme w m snap ≡ some s)
    unfolding view_panels
    view_panels-some uptime theme w m snap =
        >>=-some _ _
          (traffic_text-some (make_styles lip theme) snap.normal_count snap.burst_count
            snap.blocked_count)
          (λ t.
            >>=-some _ _ (draw_sparkline-some (make_styles lip theme) snap.recent_samples)
              (λ s. (_, refl)))

    pub view-some :
        (uptime : Text) (m : Model S D P F L)
        → m.theme_idx < 4
        → (s : Text) × (view lip f p fmt env uptime m ≡ some s)
    unfolding view
    view-some uptime m themed =
        let snapped = get_snapshot-some sound m.gateway.metrics in
        >>=-some _ _ (snapped.0, snapped.1)
          (λ snap. >>=-some _ _ (get_elem?-in themes m.theme_idx themed) (λ theme.
            if-splits (λ o. (s : Text) × (o ≡ some s)) m.modal.active
              (some (render_modal lip m.modal (make_styles lip theme) (width_or_default m.width)))
              (view_panels lip f p fmt env uptime theme (width_or_default m.width) m snap)
              (λ covered. (_, refl))
              (λ free. view_panels-some uptime theme (width_or_default m.width) m snap)))
