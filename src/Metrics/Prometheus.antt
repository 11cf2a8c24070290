-- ===== src/Metrics/Prometheus.antt =====
-- prometheus.go: the counters. Those that Go keeps in `uint64` wrap around at 2^64; the sums of
-- milliseconds are `int64`.
use wb_trial_task.Common.{
  ℕ, Str, runes, is_empty, ℤ, pos, ltb_ℤ, if◌then◌else◌, [], add_int64, increment,
}
use wb_trial_task.Common.Dict.{Dict, get, insert}
use wb_trial_task.Domain.{RejectReason, reason_text}

pub record Collector : Type 0 where
  pub ingest_total : ℕ
  pub dropped : Dict ℕ
  pub ingest_lag_last_ms : ℤ
  pub ingest_lag_sum_ms : ℤ
  pub ingest_lag_count : ℕ
  pub snapshot_age_ms : ℤ
  pub top_read_total : ℕ
  pub top_read_latency_last_ms : ℤ
  pub top_read_latency_sum_ms : ℤ
  pub top_read_latency_count : ℕ

abbrev pub new_prometheus_collector : Collector
new_prometheus_collector = record {
  ingest_total = 0;
  dropped = [];
  ingest_lag_last_ms = pos 0;
  ingest_lag_sum_ms = pos 0;
  ingest_lag_count = 0;
  snapshot_age_ms = pos 0;
  top_read_total = 0;
  top_read_latency_last_ms = pos 0;
  top_read_latency_sum_ms = pos 0;
  top_read_latency_count = 0;
}

abbrev pub clamp_non_negative : ℤ → ℤ
clamp_non_negative v = if ltb_ℤ v (pos 0) then pos 0 else v

unfoldable pub inc_ingest : Collector → Collector
inc_ingest c = record c { ingest_total = increment c.ingest_total }

abbrev pub reason_or_unknown : Str → Str
reason_or_unknown reason = if is_empty reason then runes "UNKNOWN_REJECT_REASON" else reason

unfoldable pub inc_dropped : Str → Collector → Collector
inc_dropped reason c =
    let key = reason_or_unknown reason in
    record c { dropped = insert key (increment (get key c.dropped)) c.dropped }

unfoldable pub observe_ingest_lag_ms : ℤ → Collector → Collector
observe_ingest_lag_ms ms c = record c {
  ingest_lag_last_ms = clamp_non_negative ms;
  ingest_lag_sum_ms = add_int64 c.ingest_lag_sum_ms (clamp_non_negative ms);
  ingest_lag_count = increment c.ingest_lag_count;
}

unfoldable pub set_snapshot_age_ms : ℤ → Collector → Collector
set_snapshot_age_ms ms c = record c { snapshot_age_ms = clamp_non_negative ms }

unfoldable pub inc_top_read : Collector → Collector
inc_top_read c = record c { top_read_total = increment c.top_read_total }

unfoldable pub observe_top_read_latency_ms : ℤ → Collector → Collector
observe_top_read_latency_ms ms c = record c {
  top_read_latency_last_ms = clamp_non_negative ms;
  top_read_latency_sum_ms = add_int64 c.top_read_latency_sum_ms (clamp_non_negative ms);
  top_read_latency_count = increment c.top_read_latency_count;
}

-- reject_reporter.go: `ReportReject` over a collector, without the line that it logs.
unfoldable pub report_reject : RejectReason → Collector → Collector
unfolding inc_dropped
report_reject reason c = inc_dropped (reason_text reason) c
