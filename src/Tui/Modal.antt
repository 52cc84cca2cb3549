-- ===== src/Tui/Modal.antt =====
-- ModalState of internal/tui/modals.go.
use Prim.Native.String.{◌++◌ as concat}
use aegis_pulse.Base.{String, Bool, true, false, if◌then◌else◌, str_eq}

pub data ModalType : Type 0 where
  modal_none modal_kill_switch modal_burst_freeze modal_emergency_cutoff : ModalType

pub record ModalState : Type 0 where
  pub active : Bool
  pub type : ModalType
  pub target_key : String
  pub title : String
  pub prompt : String

abbrev pub new_modal_state : ModalState
new_modal_state = record {
  active = false;
  type = modal_none;
  target_key = "aegis_live_compromised_key_9999";
  title = "";
  prompt = "";
}

abbrev describe : ModalType → ModalState → ModalState
describe modal_none m = m
describe modal_kill_switch m = record m {
  title = "🚨 TWO-STEP PANIC SAFETY PROTOCOL: KEY KILL-SWITCH";
  prompt = concat "CONFIRM KILL-SWITCH for key " (
      concat m.target_key
        "? [Y/n]\n\nThis will immediately freeze the key across Redis & Postgres.\n\nPress [Y] or [Enter] to Execute | [n] or [Esc] to Cancel");
}
describe modal_burst_freeze m = record m {
  title = "⚠ TWO-STEP PANIC SAFETY PROTOCOL: GLOBAL BURST FREEZE";
  prompt =
      "CONFIRM GLOBAL BURST FREEZE PLATFORM-WIDE?\n\nThis will immediately disable burst quotas for all tiers.\nAll excess traffic will be hard-blocked (HTTP 429).\n\nPress [Y] or [Enter] to Execute | [n] or [Esc] to Cancel";
}
describe modal_emergency_cutoff m = record m {
  title = "🛑 TWO-STEP PANIC SAFETY PROTOCOL: EMERGENCY UPSTREAM CUTOFF";
  prompt =
      "CONFIRM EMERGENCY UPSTREAM CUTOFF?\n\nThis will sever live upstream routing and force 100% of\ntraffic immediately to the L1 Smart Fallback Cache.\n\nPress [Y] or [Enter] to Execute | [n] or [Esc] to Cancel";
}

unfoldable pub open_modal : ModalType → String → ModalState → ModalState
open_modal kind target_key m = describe kind (record m {
  active = true;
  type = kind;
  target_key = if str_eq target_key "" then m.target_key else target_key;
})

unfoldable pub close_modal : ModalState → ModalState
close_modal m = record m { active = false; type = modal_none }
