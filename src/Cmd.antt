-- ===== src/Cmd.antt =====
-- cmd/conmon: what the program's commands do with the configuration and with each probe's result.
-- The flags, the log, the signals and the listening are not modelled.
pub mod Targets
pub mod Alerting
pub mod Handler
pub mod Startup
pub mod Service
pub mod Agent
