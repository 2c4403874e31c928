-- ===== src/Config.antt =====
-- internal/config/config.go: the configuration, and what `Load` accepts of it. Viper and the
-- environment are not the program's; what the rest of the program gets is a `Config` that `validate`
-- has passed.
mod Types
pub mod Validate
pub mod Load
unfoldable pub use Types.*
