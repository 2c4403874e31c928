-- ===== src/Model.antt =====
-- internal/model/model.go: the domain types. The children hold the types; their names are passed on.
mod Instants
mod Values
mod Names
mod Targets
mod States
mod Events
mod Alerts
mod Nodes
unfoldable pub use Instants.*
unfoldable pub use Values.*
unfoldable pub use Names.*
unfoldable pub use Targets.*
unfoldable pub use States.*
unfoldable pub use Events.*
unfoldable pub use Alerts.*
unfoldable pub use Nodes.*
