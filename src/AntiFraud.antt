-- ===== src/AntiFraud.antt =====
-- internal/engine/antifraud/rules.go: the evaluator that lets an event count or rejects it. The
-- mutex makes `Evaluate` one atomic step; the `…Locked` methods are functions on the state.
mod State
mod Rules
pub mod Calls
pub mod Caps
pub mod RateLimit
pub mod Blocks
pub mod Keys
pub mod Guards
pub mod Session
pub mod Entropy
unfoldable pub use State.*
unfoldable pub use Rules.*
