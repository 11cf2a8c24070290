-- ===== src/Http.antt =====
-- internal/adapters/httpapi: the handlers of the HTTP interface, each a function on the state
-- behind the ports, and internal/usecase/top/query.go. The matching of patterns by `net/http` and
-- the encoding of the JSON are not modelled: a response's body is the data that is encoded.
mod Response
mod Ports
mod TopHandlers
mod StopHandlers
mod Wiring
pub mod Docs
pub mod Admin
pub mod Numbers
pub mod TopRead
mod Answers
pub mod StopWords
pub mod Keeping
pub mod Stale
unfoldable pub use Response.*
unfoldable pub use Ports.*
unfoldable pub use TopHandlers.*
unfoldable pub use StopHandlers.*
unfoldable pub use Wiring.*
