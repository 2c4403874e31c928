-- ===== src/Alerter.antt =====
-- internal/alerter: the rules, the engine and its methods, and the notifiers.
pub mod Rules
pub mod Engine
pub mod Build
pub mod Process
pub mod Lifecycle
pub mod Calls
pub mod Throttle
pub mod Alerts
pub mod Reachable
pub mod Dispatching
pub mod Notifier
