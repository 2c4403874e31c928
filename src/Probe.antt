-- ===== src/Probe.antt =====
-- internal/probe: the registry of probers, the scheduler, and the probers. For the scheduler, what a probe
-- comes to is an argument.
pub mod Options
pub mod Registry
pub mod Tcp
pub mod Scheduler
pub mod Http
pub mod Dns
pub mod Registered
pub mod Executor
