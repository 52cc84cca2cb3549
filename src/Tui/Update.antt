-- ===== src/Tui/Update.antt =====
-- `Update` of internal/tui/app.go.
use Prim.Native.String.{◌++◌ as concat}
use aegis_pulse.Base.{
  ℕ, zero, suc, ◌+◌, ◌%◌, Bool, ◌||◌, List, [], ◌∷◌, String, if◌then◌else◌, str_eq, ℤ,
}
use aegis_pulse.Metrics.{set_revenue}
use aegis_pulse.Proxy.{World, AdminReadings, toggle_jitter}
use aegis_pulse.Tui.Modal.{
  ModalType, modal_kill_switch, modal_burst_freeze, modal_emergency_cutoff, open_modal, close_modal,
}
use aegis_pulse.Tui.Model.{Model, theme_count, add_log, push_log, execute_modal_action}

pub data Msg : Type 0 where
  window_size : ℤ → ℤ → Msg
  tick : Msg
  log_msg : String → Msg
  key : String → Msg

pub data Cmd : Type 0 where
  no_cmd tick_cmd quit : Cmd

-- What an update reads of the clock: its text, and what an action reads.
pub record Moment : Type 0 where
  pub clock : String
  pub readings : AdminReadings

abbrev pub theme_name : ℕ → String
theme_name zero = "Dracula"
theme_name (suc zero) = "Catppuccin Mocha"
theme_name (suc (suc zero)) = "Matrix Cyberpunk"
theme_name _ = "Catppuccin Latte (Light)"

abbrev pub is_confirm : String → Bool
is_confirm k = str_eq k "y" || str_eq k "Y" || str_eq k "enter"

abbrev pub is_cancel : String → Bool
is_cancel k = str_eq k "n" || str_eq k "N" || str_eq k "esc"

module _ {S D P Float64 L : Type 0} (env : World S D P Float64 L) where
  abbrev closed_modal : Model S D P Float64 L → Model S D P Float64 L
  closed_modal m = record m { modal = close_modal m.modal }

  abbrev open_with : ModalType → String → Model S D P Float64 L → Model S D P Float64 L
  open_with kind target m = record m { modal = open_modal kind target m.modal }

  -- A key while a modal is open.
  unfoldable pub modal_key : Moment → String → Model S D P Float64 L → Model S D P Float64 L
  unfolding close_modal push_log
  modal_key c k m =
      if is_confirm k
      then closed_modal (execute_modal_action env c.readings c.clock m)
      else if is_cancel k
      then closed_modal (add_log c.clock "🚫 Panic protocol modal canceled by operator." m)
      else m

  abbrev next_theme : Moment → Model S D P Float64 L → Model S D P Float64 L
  next_theme c m =
      let idx = (m.theme_idx + 1) % theme_count in
      add_log c.clock (concat "🎨 Theme switched to [" (concat (theme_name idx) "]"))
        (record m { theme_idx = idx })

  abbrev flip_jitter : Moment → Model S D P Float64 L → Model S D P Float64 L
  flip_jitter c m =
      let (override, active) =
        toggle_jitter m.gateway.jitter_override m.gateway.config.cfg.upstream.jitter.enabled in
      add_log c.clock
        (concat "⚡ Upstream simulated jitter toggled: "
          (if active then "ENABLED (200ms - 500ms, 30% traffic)" else "DISABLED"))
        (record m { gateway = record m.gateway { jitter_override = override } })

  -- A key while none is. The requests that a drill sends come back to the gateway from outside.
  unfoldable pub plain_key : Moment → String → Model S D P Float64 L → Model S D P Float64 L × Cmd
  unfolding open_modal push_log
  plain_key c k m =
      if str_eq k "q" || str_eq k "ctrl+c"
      then (m, quit)
      else if str_eq k "t" || str_eq k "T"
      then (next_theme c m, no_cmd)
      else if str_eq k " "
      then (
        add_log c.clock
            "🚀 [CHAOS] Unleashing burst of 100 requests (50-1000 RPS range) across Free, Pro, and Enterprise keys..."
            m,
        no_cmd,
      )
      else if str_eq k "l" || str_eq k "L"
      then (flip_jitter c m, no_cmd)
      else if str_eq k "a" || str_eq k "A"
      then (
        add_log c.clock
            "⚔ [CHAOS] Injecting simulated Replay Attack with expired timestamp using key [aegis_live_free_key_1001]..."
            m,
        no_cmd,
      )
      else if str_eq k "ctrl+k"
      then (open_with modal_kill_switch "aegis_live_compromised_key_9999" m, no_cmd)
      else if str_eq k "ctrl+b"
      then (open_with modal_burst_freeze "" m, no_cmd)
      else if str_eq k "ctrl+u"
      then (open_with modal_emergency_cutoff "" m, no_cmd)
      else (m, no_cmd)

  abbrev on_tick : Model S D P Float64 L → Model S D P Float64 L
  on_tick m =
      let revenue =
        env.revenue m.gateway.metrics.burst_count
          m.gateway.config.cfg.monetization.cost_per_credit in
      record m {
        revenue = revenue;
        gateway = record m.gateway { metrics = set_revenue env.prom revenue m.gateway.metrics };
      }

  unfoldable pub update : Moment → Msg → Model S D P Float64 L → Model S D P Float64 L × Cmd
  unfolding modal_key plain_key push_log
  update c (window_size w h) m = (record m { width = w; height = h }, no_cmd)
  update c tick m = (on_tick m, tick_cmd)
  update c (log_msg s) m = (add_log c.clock s m, no_cmd)
  update c (key k) m = if m.modal.active then (modal_key c k m, no_cmd) else plain_key c k m

  -- The program: the messages one after the other. It ends at `quit`.
  abbrev pub go_on : Model S D P Float64 L → Cmd → Model S D P Float64 L → Model S D P Float64 L
  go_on m quit rest = m
  go_on m _ rest = rest

  unfoldable pub run_program : List (Moment × Msg) → Model S D P Float64 L → Model S D P Float64 L
  unfolding update
  run_program [] m = m
  run_program ((c, msg) ∷ msgs) m =
      let (m', cmd) = update c msg m in let rest = run_program msgs m' in go_on m' cmd rest
