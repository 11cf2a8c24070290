-- ===== src/Metrics.antt =====
-- internal/adapters/metrics: the collector of counters and its text for Prometheus, and the
-- reporter of rejections. The lock makes each operation one step.
mod Prometheus
mod Render
pub mod Accounting
unfoldable pub use Prometheus.*
unfoldable pub use Render.*
