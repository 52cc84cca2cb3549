-- ===== src/Tui/TwoStep.antt =====
-- The panic protocols take two steps: a hotkey opens a modal, and a key confirms it.
use aegis_pulse.Base.{
  ℕ, ◌+◌, ◌≡◌, ◌≤◌, refl, Bool, false, ◌&&◌, ◌||◌, List, [], ◌∷◌, String, if◌then◌else◌, str_eq,
}
use aegis_pulse.Proxy.{GatewayProxy, World}
use aegis_pulse.Tui.Modal.{ModalType}
use aegis_pulse.Tui.Model.{Model, execute_as, kill_target, flip_burst_freeze, flip_cutoff}
use aegis_pulse.Tui.Update.{Msg, key, Cmd, quit, Moment, is_confirm, update}

abbrev pub is_hotkey : Msg → Bool
is_hotkey (key k) = str_eq k "ctrl+k" || str_eq k "ctrl+b" || str_eq k "ctrl+u"
is_hotkey _ = false

abbrev pub one_if : Bool → ℕ
one_if b = if b then 1 else 0

abbrev pub hotkeys : List (Moment × Msg) → ℕ
hotkeys [] = 0
hotkeys ((c, msg) ∷ msgs) = one_if (is_hotkey msg) + hotkeys msgs

module _ {S D P Float64 L : Type 0} (env : World S D P Float64 L) where
  -- What the protocols act on.
  pub record Untouched (g g' : GatewayProxy S D P Float64 L) : Type 0 where
    pub repo : g'.repo ≡ g.repo
    pub limiter : g'.limiter ≡ g.limiter
    pub breaker : g'.circuit_breaker ≡ g.circuit_breaker
    pub events : g'.events ≡ g.events
    pub dlq : g'.dlq ≡ g.dlq

  -- The message confirms an open modal.
  abbrev pub is_action : Msg → Model S D P Float64 L → Bool
  is_action (key k) m = m.modal.active && is_confirm k
  is_action _ m = false

  abbrev Leaves : GatewayProxy S D P Float64 L → Model S D P Float64 L × Cmd → Type 0
  Leaves g r = Untouched g r.0.gateway

  modal-execute :
      (c : Moment) (kind : ModalType) (m : Model S D P Float64 L)
      → (execute_as env c.readings c.clock kind m).modal ≡ m.modal
  unfolding kill_target flip_burst_freeze flip_cutoff
  modal-execute c ModalType.modal_none m = refl
  modal-execute c ModalType.modal_kill_switch m = refl
  modal-execute c ModalType.modal_burst_freeze m = refl
  modal-execute c ModalType.modal_emergency_cutoff m = refl

  -- The number of modals that are open, or opened by a hotkey, at most goes down.
  abbrev Bounded : String → Model S D P Float64 L → Model S D P Float64 L × Cmd → Type 0
  Bounded k m r = one_if r.0.modal.active ≤ one_if (is_hotkey (key k)) + one_if m.modal.active

  abbrev count_on : Cmd → ℕ → ℕ
  count_on quit n = 0
  count_on _ n = n

  -- The number of panic protocols that a run executes.
  unfoldable pub actions : List (Moment × Msg) → Model S D P Float64 L → ℕ
  actions [] m = 0
  actions ((c, msg) ∷ msgs) m =
      let (m', cmd) = update env c msg m in
      let rest = actions msgs m' in one_if (is_action msg m) + count_on cmd rest
