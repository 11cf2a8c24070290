-- ===== src/Normalizer.antt =====
-- internal/engine/normalizer/normalizer.go: the text of a query made comparable, without the
-- words of the stop-list. The lock makes a swap of the set and a reading of it atomic.
mod Text
pub mod Trim
pub mod Words
pub mod Reference
pub mod Output
pub mod StopWords
unfoldable pub use Text.*
