-- ===== src/Tui/Model.antt =====
-- Model of internal/tui/app.go, and what a confirmed panic protocol does. The proxy, the repository,
-- the limiter, the breaker, the engine and the Redis client of the model are those of one gateway.
use Prim.Native.String.{◌++◌ as concat}
use aegis_pulse.Base.{
  ℕ, Bool, not, List, [], ◌∷◌, ◌++◌, String, if◌then◌else◌, ltb, ℤ, pos, length, drop, codes,
}
use aegis_pulse.Cache.Breaker.{set_emergency_cutoff}
use aegis_pulse.Proxy.{GatewayProxy, World, AdminReadings, announce, freeze_everywhere, bool_text}
use aegis_pulse.Tui.Modal.{
  ModalType, modal_none, modal_kill_switch, modal_burst_freeze, modal_emergency_cutoff, ModalState,
  new_modal_state,
}

pub record Model (S D P Float64 L : Type 0) : Type 0 where
  pub gateway : GatewayProxy S D P Float64 L
  pub theme_idx : ℕ
  pub width : ℤ
  pub height : ℤ
  pub modal : ModalState
  pub logs : List String
  pub revenue : Float64

abbrev pub theme_count : ℕ
theme_count = 4

-- 0 on a dark background, 3 on a light one.
abbrev pub detect_initial_theme : Bool → ℕ
detect_initial_theme has_dark_background = if has_dark_background then 0 else 3

unfoldable pub new_model :
    {S D P Float64 L : Type 0}
    → GatewayProxy S D P Float64 L
    → Float64
    → Bool
    → Model S D P Float64 L
new_model gateway zero_revenue has_dark_background = record {
  gateway = gateway;
  theme_idx = detect_initial_theme has_dark_background;
  width = pos 0;
  height = pos 0;
  modal = new_modal_state;
  logs =
      "🛡 AegisPulse Cyber-Deck Cockpit initialized." ∷ "⚡ Dual-Threshold Sliding Window active."
      ∷ "🔐 AES-256-GCM Envelope Encryption armed." ∷ [];
  revenue = zero_revenue;
}

-- The last eight lines are kept.
unfoldable pub push_log : String → List String → List String
push_log line logs =
    let logs' = logs ++ line ∷ [] in if ltb 8 (length logs') then drop 1 logs' else logs'

-- The clock is shown in front of the message.
abbrev pub log_line : String → String → String
log_line clock msg = concat "[" (concat clock (concat "] " msg))

abbrev pub add_log :
    {S D P Float64 L : Type 0} → String → String → Model S D P Float64 L → Model S D P Float64 L
add_log clock msg m = record m { logs = push_log (log_line clock msg) m.logs }

module _ {S D P Float64 L : Type 0} (env : World S D P Float64 L) where
  abbrev on_gateway :
      (GatewayProxy S D P Float64 L → GatewayProxy S D P Float64 L)
      → Model S D P Float64 L
      → Model S D P Float64 L
  on_gateway f m = record m { gateway = f m.gateway }

  unfoldable pub kill_target :
      AdminReadings → String → Model S D P Float64 L → Model S D P Float64 L
  unfolding push_log
  kill_target c clock m =
      let target = m.modal.target_key in
      on_gateway
        (announce env c "KILL_SWITCH_ACTIVATED"
          (codes "{\"action\":\"KILL_SWITCH\",\"target_key\":\""
            ++ codes target
            ++ codes "\",\"operator\":\"tui\"}")
          "KILL_SWITCH" target "SYSTEM" "EMERGENCY KILL-SWITCH CONFIRMED"
          (concat "Operator confirmed panic kill-switch for key "
            (concat target ". Key neutralized platform-wide.")))
        (add_log clock
          (concat "🚨 KILL-SWITCH EXECUTED: Compromised key ["
            (concat target "] frozen across Redis & Postgres!"))
          (on_gateway (freeze_everywhere env c target) m))

  unfoldable pub flip_burst_freeze :
      AdminReadings → String → Model S D P Float64 L → Model S D P Float64 L
  unfolding push_log
  flip_burst_freeze c clock m =
      let frozen = not (env.limiter.is_global_burst_frozen m.gateway.limiter) in
      on_gateway
        (announce env c "GLOBAL_BURST_FREEZE"
          (codes "{\"action\":\"BURST_FREEZE\",\"frozen\":"
            ++ bool_text frozen
            ++ codes ",\"operator\":\"tui\"}")
          "SECURITY_INCIDENT" "SYSTEM" "GLOBAL" "GLOBAL BURST FREEZE TOGGLED"
          (if frozen
            then "Global burst freeze state set to true"
            else "Global burst freeze state set to false"))
        (add_log clock
          (if frozen
            then "⚠ GLOBAL BURST FREEZE ACTIVATED (Burst quota locked, 429 enforced)"
            else "⚠ GLOBAL BURST FREEZE DEACTIVATED (Normal burst quotas restored)")
          (on_gateway
            (λ g. record g { limiter = env.limiter.set_global_burst_freeze frozen g.limiter }) m))

  unfoldable pub flip_cutoff :
      AdminReadings → String → Model S D P Float64 L → Model S D P Float64 L
  unfolding push_log
  flip_cutoff c clock m =
      let cutoff = not m.gateway.circuit_breaker.emergency_cutoff in
      on_gateway
        (announce env c "EMERGENCY_UPSTREAM_CUTOFF"
          (codes "{\"action\":\"EMERGENCY_UPSTREAM_CUTOFF\",\"cutoff\":"
            ++ bool_text cutoff
            ++ codes ",\"operator\":\"tui\"}")
          "SECURITY_INCIDENT" "SYSTEM" "GATEWAY" "EMERGENCY UPSTREAM CUTOFF TOGGLED"
          (if cutoff
            then "Emergency cutoff state set to true"
            else "Emergency cutoff state set to false"))
        (add_log clock
          (if cutoff
            then "🛑 EMERGENCY UPSTREAM CUTOFF ACTIVATED: 100% traffic forced to L1 Fallback Cache"
            else "🛑 EMERGENCY UPSTREAM CUTOFF DEACTIVATED: Live upstream routing restored")
          (on_gateway
            (λ g. record g { circuit_breaker = set_emergency_cutoff cutoff g.circuit_breaker }) m))

  abbrev pub execute_as :
      AdminReadings → String → ModalType → Model S D P Float64 L → Model S D P Float64 L
  execute_as c clock modal_kill_switch m = kill_target c clock m
  execute_as c clock modal_burst_freeze m = flip_burst_freeze c clock m
  execute_as c clock modal_emergency_cutoff m = flip_cutoff c clock m
  execute_as c clock modal_none m = m

  unfoldable pub execute_modal_action :
      AdminReadings → String → Model S D P Float64 L → Model S D P Float64 L
  unfolding kill_target flip_burst_freeze flip_cutoff
  execute_modal_action c clock m = execute_as c clock m.modal.type m
