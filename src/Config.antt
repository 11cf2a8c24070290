-- ===== src/Config.antt =====
-- internal/config/config.go: the settings that the service reads from its environment, and what
-- main.go takes from them.
mod Readers
mod Settings
pub mod Validation
pub mod Lists
pub mod Wiring
unfoldable pub use Readers.*
unfoldable pub use Settings.*
