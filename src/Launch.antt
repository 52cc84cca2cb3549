-- ===== src/Launch.antt =====
-- cmd/gateway/main.go: the start of a gateway from its parts, and its end.
pub mod Start
pub mod Exit
