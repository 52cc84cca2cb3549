-- ===== src/Tui/Shown.antt =====
-- The dashboard is drawn after every run of messages.
use aegis_pulse.Base.{
  ◌<◌, ◌≡◌, refl, Bool, ◌||◌, some, List, [], ◌∷◌, String, str_eq, Text, if-keeps, arith,
}
use aegis_pulse.Metrics.Snapshot.{Samples, AreSound}
use aegis_pulse.Proxy.{World, AdminReadings, GatewayProxy}
use aegis_pulse.Tui.Look.{Lipgloss}
use aegis_pulse.Tui.Modal.{
  ModalType, modal_none, modal_kill_switch, modal_burst_freeze, modal_emergency_cutoff,
}
use aegis_pulse.Tui.Model.{Model, new_model, execute_as, execute_modal_action}
use aegis_pulse.Tui.Render.{Plots, AreShares}
use aegis_pulse.Tui.Update.{
  Msg, window_size, tick, log_msg, key, Cmd, no_cmd, tick_cmd, quit, Moment, modal_key, plain_key,
  update, go_on, run_program,
}
use aegis_pulse.Tui.Screens.{view-some}
use aegis_pulse.Tui.View.{Formats, view}

module _ {F S D P L : Type 0} (env : World S D P F L) where
  -- The theme is one of the four.
  abbrev IsThemed : Model S D P F L → Type 0
  IsThemed m = m.theme_idx < 4

  execute_as-IsThemed :
      (c : AdminReadings) (clock : String) (kind : ModalType) (m : Model S D P F L)
      → (execute_as env c clock kind m).theme_idx ≡ m.theme_idx
  unfolding execute_modal_action
  execute_as-IsThemed c clock modal_none m = refl
  execute_as-IsThemed c clock modal_kill_switch m = refl
  execute_as-IsThemed c clock modal_burst_freeze m = refl
  execute_as-IsThemed c clock modal_emergency_cutoff m = refl

  modal_key-IsThemed :
      (c : Moment) (k : String) (m : Model S D P F L)
      → (modal_key env c k m).theme_idx ≡ m.theme_idx
  unfolding modal_key execute_modal_action
  modal_key-IsThemed c k m = ground (arith, execute_as-IsThemed c.readings c.clock m.modal.type m)

  -- The same, of what a key leaves.
  record AreThemed (r : Model S D P F L × Cmd) : Type 0 where
    themed : IsThemed r.0

  plain_key-AreThemed :
      (c : Moment) (k : String) (m : Model S D P F L) → IsThemed m → AreThemed (plain_key env c k m)
  unfolding plain_key
  plain_key-AreThemed c k m h =
      if-keeps AreThemed (str_eq k "q" || str_eq k "ctrl+c") _ _ (record { themed = h })
        (if-keeps AreThemed (str_eq k "t" || str_eq k "T") _ _ (record { themed = omega arith })
          (if-keeps AreThemed (str_eq k " ") _ _ (record { themed = h })
            (if-keeps AreThemed (str_eq k "l" || str_eq k "L") _ _ (record { themed = h })
              (if-keeps AreThemed (str_eq k "a" || str_eq k "A") _ _ (record { themed = h })
                (if-keeps AreThemed (str_eq k "ctrl+k") _ _ (record { themed = h })
                  (if-keeps AreThemed (str_eq k "ctrl+b") _ _ (record { themed = h })
                    (if-keeps AreThemed (str_eq k "ctrl+u") _ _ (record { themed = h })
                      (record { themed = h }))))))))

  update-IsThemed :
      (c : Moment) (msg : Msg) (m : Model S D P F L) → IsThemed m → IsThemed (update env c msg m).0
  unfolding update
  update-IsThemed c (window_size w h) m themed = themed
  update-IsThemed c tick m themed = themed
  update-IsThemed c (log_msg s) m themed = themed
  update-IsThemed c (key k) m themed =
      ground (arith, modal_key-IsThemed c k m, (plain_key-AreThemed c k m themed).themed)

  go_on-IsThemed :
      (m : Model S D P F L) (cmd : Cmd) (rest : Model S D P F L)
      → IsThemed m
      → IsThemed rest
      → IsThemed (go_on env m cmd rest)
  go_on-IsThemed m quit rest h k = h
  go_on-IsThemed m no_cmd rest h k = k
  go_on-IsThemed m tick_cmd rest h k = k

  run_program-IsThemed :
      (msgs : List (Moment × Msg)) (m : Model S D P F L)
      → IsThemed m
      → IsThemed (run_program env msgs m)
  unfolding run_program
  run_program-IsThemed [] m themed = themed
  run_program-IsThemed ((c, msg) ∷ msgs) m themed =
      let next = update-IsThemed c msg m themed in
      go_on-IsThemed (update env c msg m).0 (update env c msg m).1 _ next
        (run_program-IsThemed msgs (update env c msg m).0 next)

  -- Where a share of a length and of a count are not negative and sorting keeps the length: the dashboard
  -- is drawn without a panic after every run of messages from its start, on a background of either
  -- kind, whatever the gateway and the terminal's width are.
  pub run_program-drawn :
      {Style : Type 0} (lip : Lipgloss Style) (f : Samples F) (p : Plots F) (fmt : Formats F)
      (sound : AreSound f) (shares : AreShares p) (g : GatewayProxy S D P F L) (zero_revenue : F)
      (dark : Bool) (uptime : Text) (msgs : List (Moment × Msg))
      → (s : Text) × (view lip f p fmt env uptime
            (run_program env msgs (new_model g zero_revenue dark))
          ≡ some s)
  unfolding new_model
  run_program-drawn lip f p fmt sound shares g zero_revenue dark uptime msgs =
      view-some lip f p fmt sound shares env uptime _
        (run_program-IsThemed msgs (new_model g zero_revenue dark) (ground arith))
