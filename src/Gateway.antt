-- ===== src/Gateway.antt =====
-- cmd/pucora-ce/main.go, with encoding.go and sd.go: the command `pucora`.
pub mod Main
pub mod Signal
pub mod Process
mod Tests
