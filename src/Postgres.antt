-- ===== src/Postgres.antt =====
-- internal/adapters/storage/postgres/stoplist_repo.go: the repository of the stop-list, over the
-- calls of a database that it makes.
mod Errors
mod Repository
mod Opening
pub mod Tables
pub mod Refinement
pub mod Store
pub mod Keeping
unfoldable pub use Errors.*
unfoldable pub use Repository.*
unfoldable pub use Opening.*
