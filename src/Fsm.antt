-- ===== src/Fsm.antt =====
-- internal/fsm: the flap tracker (flap.go) and the state machine (fsm.go).
pub mod Flap
pub mod Machine
pub mod Derive
pub mod Process
pub mod Runs
