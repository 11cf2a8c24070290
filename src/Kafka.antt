-- ===== src/Kafka.antt =====
-- internal/adapters/kafka/consumer.go: the consumer's configuration, its retries and its loop over
-- a reader and a handler.
mod Settings
mod Consumer
pub mod Backoff
pub mod Retries
pub mod Progress
pub mod Delivery
unfoldable pub use Settings.*
unfoldable pub use Consumer.*
