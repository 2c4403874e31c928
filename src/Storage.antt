-- ===== src/Storage.antt =====
-- internal/storage: the queries and results of the storage interface, and its implementation over
-- SQLite. The SQL engine and the JSON library are arguments, with their documented laws.
mod Queries
unfoldable pub use Queries.*
pub mod Store
pub mod Sql
pub mod Json
pub mod Sqlite
