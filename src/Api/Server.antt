-- ===== src/Api/Server.antt =====
-- internal/api/server.go: the handlers of the JSON API over the storage, the state machine and the alert
-- engine. A route with its parameters is a request; gin's `ShouldBindJSON` and the `Sscanf` of a number
-- are arguments, and so are the clock, a fresh identifier and what goes wrong in the storage.
pub mod Requests
pub mod Targets
pub mod Reading
pub mod Serve
pub mod Routes
