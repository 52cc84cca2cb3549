-- ===== src/Chaos.antt =====
-- cmd/chaos/main.go: the drills, and what becomes of them against the gateway. What a drill prints is
-- left out; it is a function of what the drill gives here.
pub mod Drills
pub mod Target
pub mod KillDrill
pub mod Replays
pub mod Demo
