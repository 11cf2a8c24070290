-- ===== src/Ingest.antt =====
-- internal/usecase/ingest: the typed handler and the runtime handler over their interfaces, and
-- the service that main.go builds from them.
mod Handler
mod Runtime
pub mod System
pub mod Atomicity
pub mod Duplicates
pub mod Consumed
unfoldable pub use Handler.*
unfoldable pub use Runtime.*
