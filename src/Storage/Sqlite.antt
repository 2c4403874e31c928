-- ===== src/Storage/Sqlite.antt =====
-- internal/storage/sqlite/sqlite.go: the store over four tables. The columns of a row are those of its
-- `CREATE TABLE`; a column of JSON has the type `Text`. Whether the engine reports an error for a
-- statement is an argument, a `Fault`.
pub mod Rows
pub mod Columns
pub mod Where
pub mod Statements
pub mod Targets
pub mod Events
pub mod Alerts
pub mod Nodes
pub mod Cleanup
pub mod Store
pub mod Opening
