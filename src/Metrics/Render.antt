-- ===== src/Metrics/Render.antt =====
-- prometheus.go: `RenderPrometheus`.
use wb_trial_task.Common.{
  ℕ, List, [], ◌∷◌, ◌++◌, map, Str, runes, sort_strings, ℤ, ◌==◌, if◌then◌else◌,
}
use wb_trial_task.Common.Dict.{Dict, get}
use wb_trial_task.Common.Decimal.{decimal, decimal_int}
use wb_trial_task.Metrics.Prometheus.{Collector}

-- `strings.ReplaceAll` of a text of one rune
unfoldable pub replace_all : ℕ → Str → Str → Str
replace_all old new [] = []
replace_all old new (c ∷ s) =
    let rest = replace_all old new s in if c == old then new ++ rest else c ∷ rest

-- The backslash is 92, the line feed 10 and the quotation mark 34.
unfoldable pub escape_label : Str → Str
unfolding replace_all
escape_label value =
    replace_all 34 (92 ∷ 34 ∷ [])
      (replace_all 10 (92 ∷ b'n' ∷ []) (replace_all 92 (92 ∷ 92 ∷ []) value))

-- `s + "\n"`, before the text that follows
infixr 40 ◌⏎◌
abbrev ◌⏎◌ : Str → Str → Str
s ⏎ rest = s ++ 10 ∷ rest

-- The texts that `fmt` gives are arguments where they are not a decimal number: `%q` of a label,
-- and `%.2f` of `avg`, the average of a sum and a count.
module _ (quoted : Str → Str) (average : ℤ → ℕ → Str) where
  unfoldable pub render_dropped : Dict ℕ → List Str → Str
  render_dropped dropped [] = []
  render_dropped dropped (reason ∷ keys) =
      runes "trends_dropped_events_total{reason="
        ++ quoted (escape_label reason)
        ++ runes "} "
        ++ decimal (get reason dropped)
      ⏎ render_dropped dropped keys

  unfoldable pub render_prometheus : Collector → Str
  unfolding sort_strings render_dropped
  render_prometheus c =
      runes "# HELP trends_ingest_events_total Total number of successfully ingested events."
      ⏎ runes "# TYPE trends_ingest_events_total counter"
      ⏎ runes "trends_ingest_events_total " ++ decimal c.ingest_total
      ⏎ runes "# HELP trends_dropped_events_total Total number of dropped events by reason."
      ⏎ runes "# TYPE trends_dropped_events_total counter"
      ⏎ render_dropped c.dropped (sort_strings (map (λ e. e.0) c.dropped))
        ++ runes "# HELP trends_ingest_lag_ms_last Last observed ingest lag in milliseconds."
      ⏎ runes "# TYPE trends_ingest_lag_ms_last gauge"
      ⏎ runes "trends_ingest_lag_ms_last " ++ decimal_int c.ingest_lag_last_ms
      ⏎ runes "# HELP trends_ingest_lag_ms_avg Average ingest lag in milliseconds."
      ⏎ runes "# TYPE trends_ingest_lag_ms_avg gauge"
      ⏎ runes "trends_ingest_lag_ms_avg " ++ average c.ingest_lag_sum_ms c.ingest_lag_count
      ⏎ runes "# HELP trends_snapshot_age_ms Current top snapshot age in milliseconds."
      ⏎ runes "# TYPE trends_snapshot_age_ms gauge"
      ⏎ runes "trends_snapshot_age_ms " ++ decimal_int c.snapshot_age_ms
      ⏎ runes "# HELP trends_top_read_requests_total Total number of top read requests."
      ⏎ runes "# TYPE trends_top_read_requests_total counter"
      ⏎ runes "trends_top_read_requests_total " ++ decimal c.top_read_total
      ⏎ runes
          "# HELP trends_top_read_latency_ms_last Last observed top read latency in milliseconds."
      ⏎ runes "# TYPE trends_top_read_latency_ms_last gauge"
      ⏎ runes "trends_top_read_latency_ms_last " ++ decimal_int c.top_read_latency_last_ms
      ⏎ runes "# HELP trends_top_read_latency_ms_avg Average top read latency in milliseconds."
      ⏎ runes "# TYPE trends_top_read_latency_ms_avg gauge"
      ⏎ runes "trends_top_read_latency_ms_avg "
        ++ average c.top_read_latency_sum_ms c.top_read_latency_count
      ⏎ []
