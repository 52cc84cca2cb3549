-- ===== src/Tui/Remote.antt =====
-- standaloneModel of cmd/tui/main.go: what it shows of a gateway, and what it asks of it. Its requests
-- are values, and the answers are parameters. Page has the page of metrics that it also reads.
use Prim.Native.String.{◌++◌ as concat}
use aegis_pulse.Base.{
  ℕ, ℤ, ◌+◌, ◌%◌, ◌≡◌, refl, Bool, true, false, not, ◌||◌, Option, none, some, List, [], ◌∷◌,
  String, if◌then◌else◌, str_eq,
}
use aegis_pulse.Cache.Breaker.{set_emergency_cutoff}
use aegis_pulse.Proxy.{
  GatewayProxy, World, AdminReadings, Response, kill, freeze_bursts, cut_off, switch_jitter,
}
use aegis_pulse.Tui.Modal.{
  ModalType, modal_none, modal_kill_switch, modal_burst_freeze, modal_emergency_cutoff, ModalState,
  open_modal, close_modal,
}
use aegis_pulse.Tui.Model.{push_log, log_line, theme_count}
use aegis_pulse.Tui.Update.{is_confirm, is_cancel, theme_name, Cmd, no_cmd, tick_cmd, quit}

pub record Remote : Type 0 where
  pub theme_idx : ℕ
  pub width : ℤ
  pub height : ℤ
  pub modal : ModalState
  pub logs : List String
  pub cb_state : String
  pub jitter_active : Bool
  pub burst_frozen : Bool

-- The answer of `/api/v1/panic/status`, decoded.
pub record PanicStatus : Type 0 where
  pub circuit_breaker : String
  pub emergency_cutoff : Bool
  pub burst_frozen : Bool
  pub jitter_active : Bool

-- The end of `pollGatewayMetrics`; `none` is a request or a decoding that fails.
unfoldable pub poll_status : Option PanicStatus → Remote → Remote
poll_status none m = m
poll_status (some st) m = record m {
  cb_state = if st.emergency_cutoff then "EMERGENCY CUTOFF" else st.circuit_breaker;
  burst_frozen = st.burst_frozen;
  jitter_active = st.jitter_active;
}

-- What the dashboard posts.
pub data Ask : Type 0 where
  ask_kill : String → Ask
  ask_freeze ask_cutoff : Bool → Ask
  ask_jitter : Ask

abbrev bool_name : Bool → String
bool_name true = "true"
bool_name false = "false"

abbrev log_if : Bool → String → String → Remote → Remote
log_if done clock msg m =
    if done then record m { logs = push_log (log_line clock msg) m.logs } else m

-- `answered` says that a post gets an answer, whatever its status.
unfoldable pub execute_remote : ModalType → Bool → String → Remote → Remote × List Ask
unfolding push_log
execute_remote modal_none answered clock m = (m, [])
execute_remote modal_kill_switch answered clock m =
    let target = m.modal.target_key in
    (
      log_if answered clock (concat "🚨 KILL-SWITCH CONFIRMED: Key [" (concat target "] frozen!")) m,
      ask_kill target ∷ [],
    )
execute_remote modal_burst_freeze answered clock m =
    let frozen = not m.burst_frozen in
    (
      log_if answered clock (concat "⚠ GLOBAL BURST FREEZE toggled: " (bool_name frozen))
          (record m { burst_frozen = frozen }),
      ask_freeze frozen ∷ [],
    )
execute_remote modal_emergency_cutoff answered clock m =
    let cutoff = not (str_eq m.cb_state "OPEN") in
    let shown : Remote = record m {
      logs =
          push_log
            (log_line clock (concat "🛑 EMERGENCY UPSTREAM CUTOFF toggled: " (bool_name cutoff)))
            m.logs;
      cb_state = if cutoff then "OPEN" else "CLOSED";
    } in
    (if answered then shown else m, ask_cutoff cutoff ∷ [])

abbrev after_jitter : Option Bool → Remote → Remote
after_jitter none m = record m { jitter_active = not m.jitter_active }
after_jitter (some active) m = record m { jitter_active = active }

-- The setting that the answer shows, which is off where it cannot be decoded; `none` is no answer.
unfoldable pub toggle_remote_jitter : Option Bool → String → Remote → Remote × List Ask
unfolding push_log
toggle_remote_jitter reply clock m =
    let m' = after_jitter reply m in
    (
      record m' {
        logs =
            push_log
              (log_line clock (
                concat "⚡ Upstream jitter toggled on gateway: "
                  (if m'.jitter_active then "ENABLED (200-500ms)" else "DISABLED")))
              m'.logs;
      },
      ask_jitter ∷ [],
    )

abbrev with_closed : Remote × List Ask → Remote × List Ask
with_closed (m, asks) = (record m { modal = close_modal m.modal }, asks)

-- A key while a modal is open.
unfoldable pub remote_modal_key : Bool → String → String → Remote → Remote × List Ask
unfolding execute_remote close_modal
remote_modal_key answered clock k m =
    if is_confirm k
    then with_closed (execute_remote m.modal.type answered clock m)
    else if is_cancel k
    then with_closed (
      record m { logs = push_log (log_line clock "🚫 Panic modal canceled by operator.") m.logs },
      [],
    )
    else (m, [])

abbrev with_log : String → String → Remote → Remote
with_log clock msg m = record m { logs = push_log (log_line clock msg) m.logs }

abbrev remote_theme : String → Remote → Remote
remote_theme clock m =
    let idx = (m.theme_idx + 1) % theme_count in
    with_log clock (concat "🎨 Theme switched to [" (concat (theme_name idx) "]"))
      (record m { theme_idx = idx })

abbrev remote_open : ModalType → String → Remote → Remote
remote_open kind target m = record m { modal = open_modal kind target m.modal }

-- A key while none is. The requests of a drill go to the gateway as any client's.
unfoldable pub remote_plain_key : Option Bool → String → String → Remote → Remote × List Ask × Cmd
unfolding open_modal push_log toggle_remote_jitter
remote_plain_key jitter clock k m =
    let (switched, asks) = toggle_remote_jitter jitter clock m in
    if str_eq k "q" || str_eq k "ctrl+c"
    then (m, [], quit)
    else if str_eq k "t" || str_eq k "T"
    then (remote_theme clock m, [], no_cmd)
    else if str_eq k " "
    then (with_log clock "🚀 Unleashing remote traffic burst (100 requests)..." m, [], no_cmd)
    else if str_eq k "l" || str_eq k "L"
    then (switched, asks, no_cmd)
    else if str_eq k "a" || str_eq k "A"
    then (
      with_log clock "⚔ Injecting simulated replay attack with expired timestamp..." m,
      [],
      no_cmd,
    )
    else if str_eq k "ctrl+k"
    then (remote_open modal_kill_switch "aegis_live_compromised_key_9999" m, [], no_cmd)
    else if str_eq k "ctrl+b"
    then (remote_open modal_burst_freeze "" m, [], no_cmd)
    else if str_eq k "ctrl+u"
    then (remote_open modal_emergency_cutoff "" m, [], no_cmd)
    else (m, [], no_cmd)

pub data RemoteMsg : Type 0 where
  remote_size : ℤ → ℤ → RemoteMsg
  remote_tick : Option PanicStatus → RemoteMsg
  remote_key : String → RemoteMsg

abbrev without_cmd : Remote × List Ask → Remote × List Ask × Cmd
without_cmd (m, asks) = (m, asks, no_cmd)

-- `answered` and `jitter` are what a post of this update meets.
unfoldable pub remote_update :
    Bool → Option Bool → String → RemoteMsg → Remote → Remote × List Ask × Cmd
unfolding poll_status remote_modal_key remote_plain_key
remote_update answered jitter clock (remote_size w h) m =
    (record m { width = w; height = h }, [], no_cmd)
remote_update answered jitter clock (remote_tick st) m = (poll_status st m, [], tick_cmd)
remote_update answered jitter clock (remote_key k) m =
    if m.modal.active
    then without_cmd (remote_modal_key answered clock k m)
    else remote_plain_key jitter clock k m

module _ {S D P Float64 L : Type 0} (env : World S D P Float64 L) where
  -- What the gateway does with what is asked of it.
  abbrev serve_ask :
      AdminReadings → Response → Ask → GatewayProxy S D P Float64 L → GatewayProxy S D P Float64 L
  serve_ask c w (ask_kill key) g = (kill env c key g w).0
  serve_ask c w (ask_freeze frozen) g = (freeze_bursts env c frozen g w).0
  serve_ask c w (ask_cutoff cutoff) g = (cut_off env c cutoff g w).0
  serve_ask c w ask_jitter g = (switch_jitter env none g w).0

  abbrev pub serve_asks :
      AdminReadings
      → Response
      → List Ask
      → GatewayProxy S D P Float64 L
      → GatewayProxy S D P Float64 L
  serve_asks c w [] g = g
  serve_asks c w (a ∷ asks) g = serve_asks c w asks (serve_ask c w a g)

  -- Once a dashboard that shows no modal has polled a gateway that is cut off, ctrl+u and y ask for the
  -- cutoff again, whether or not the post gets an answer: the gateway is cut off after it.
  pub remote_cutoff_sticks :
      (st : PanicStatus) (m : Remote) (c : AdminReadings) (answered : Bool) (jitter : Option Bool)
      (clock : String) (w : Response) (g : GatewayProxy S D P Float64 L)
      → st.emergency_cutoff ≡ true
      → m.modal.active ≡ false
      → let polled = (remote_update answered jitter clock (remote_tick (some st)) m).0 in
        let opened = (remote_update answered jitter clock (remote_key "ctrl+u") polled).0 in
        let asks = (remote_update answered jitter clock (remote_key "y") opened).1 in
        (asks ≡ ask_cutoff true ∷ [])
        × ((serve_asks c w asks g).circuit_breaker.emergency_cutoff ≡ true)
  unfolding remote_update poll_status remote_modal_key remote_plain_key execute_remote open_modal
      cut_off set_emergency_cutoff
  remote_cutoff_sticks st m c answered jitter clock w g h closed = rw (h, closed) (refl, refl)
