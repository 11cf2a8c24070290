-- ===== src/Http/TopHandlers.antt =====
-- handlers_top.go. The readings of the clock that a handler makes are its arguments, in their
-- order.
use wb_trial_task.Common.{
  ℕ, suc, ◌-◌, ◌/◌, Bool, true, false, ◌||◌, Option, none, some, Str, runes, is_empty, leb, ltb,
  ◌==◌, ℤ, pos, negsuc, ltb_ℤ, if◌then◌else◌, inl, inr, atoi,
}
use wb_trial_task.Clock.{Time, Duration, unix_milli}
use wb_trial_task.Domain.{TopSnapshot}
use wb_trial_task.Http.Response.{
  Response, write_json, write_error, top_body, health_body, text_body, code_unavailable,
  code_invalid_argument, msg_top_unavailable, msg_invalid_top_n, msg_metrics_unavailable,
}
use wb_trial_task.Http.Ports.{Api, ApiMetrics}

-- `a - b`, for numbers that are no less than 0
abbrev pub difference : ℕ → ℕ → ℤ
difference a b = if leb b a then pos (a - b) else negsuc (b - suc a)

-- `d.Milliseconds()`, which rounds towards 0
abbrev pub milliseconds : Duration → ℤ
milliseconds (pos d) = pos (d / 1000000)
milliseconds (negsuc d) = if suc d / 1000000 == 0 then pos 0 else negsuc (suc d / 1000000 - 1)

abbrev pub non_negative_ms : ℤ → ℤ
non_negative_ms ms = if ltb_ℤ ms (pos 0) then pos 0 else ms

abbrev pub snapshot_lag_ms : ℕ → ℕ → ℤ
snapshot_lag_ms now_ms generated_at_ms =
    if generated_at_ms == 0 then pos 0 else non_negative_ms (difference now_ms generated_at_ms)

-- none is `errInvalidTopN`
unfoldable pub parse_top_n : Str → Option ℤ
parse_top_n raw = if is_empty raw then some (pos 10) else elim (atoi raw) [
  | none ↦ none
  | some n ↦ if ltb_ℤ n (pos 1) || ltb_ℤ (pos 100) n then none else some n
]

module _ {S E : Type 0} (api : Api S E) where
  -- The metrics of a read that was answered.
  unfoldable pub observe_read : Option (ApiMetrics S) → ℤ → ℤ → S → S
  observe_read none lag latency s = s
  observe_read (some m) lag latency s =
      m.observe_top_read_latency_ms latency (m.set_snapshot_age_ms lag (m.inc_top_read s))

  unfoldable pub answer_top : Time → ℤ → TopSnapshot → Time → Time → S → Response × S
  unfolding observe_read
  answer_top started_at n snap now end s =
      let window_seconds = if snap.window_seconds == 0 then 300 else snap.window_seconds in
      let lag = snapshot_lag_ms (unix_milli now) snap.generated_at_ms in
      (
        write_json 200 (top_body snap.generated_at_ms window_seconds n snap.items lag),
        observe_read api.metrics lag (non_negative_ms (milliseconds (difference end started_at))) s,
      )

  -- `GetTop`; `raw` is the query's parameter `n`, and empty where there is none
  unfoldable pub get_top : Str → Time → Time → Time → S → Response × S
  unfolding parse_top_n answer_top
  get_top raw started_at now end s = elim api.top [
    | none ↦ (write_error 503 code_unavailable msg_top_unavailable, s)
    | some top ↦ elim (parse_top_n raw) [
      | none ↦ (write_error 400 code_invalid_argument msg_invalid_top_n, s)
      | some n ↦
          let (r, s') = top.get_top n s in
          elim r [
            | inl err ↦ (write_error 503 code_unavailable msg_top_unavailable, s')
            | inr snap ↦ answer_top started_at n snap now end s'
          ]
    ]
  ]

  -- What `Health` finds out: whether there is a snapshot, and when it was made.
  unfoldable pub probe : S → (Bool × ℕ) × S
  probe s = elim api.top [
    | none ↦ ((false, 0), s)
    | some top ↦
        let (r, s') = top.get_top (pos 1) s in
        elim r [ inl err ↦ ((false, 0), s') | inr snap ↦ ((true, snap.generated_at_ms), s') ]
  ]

  unfoldable pub observe_age : Option (ApiMetrics S) → Bool → ℕ → Time → S → S
  observe_age none ready generated now s = s
  observe_age (some m) ready generated now s =
      if ready
      then (if ltb 0 generated
          then m.set_snapshot_age_ms (snapshot_lag_ms (unix_milli now) generated) s
          else s)
      else s

  unfoldable pub health : Time → S → Response × S
  unfolding probe observe_age
  health now s =
      let ((ready, generated), s') = probe s in
      let status = if ready then runes "ok" else runes "degraded" in
      (
        write_json 200 (health_body status api.service_version api.kafka_connected ready),
        observe_age api.metrics ready generated now s',
      )

  -- `Metrics`
  unfoldable pub metrics_page : S → Response × S
  metrics_page s = elim api.metrics [
    | none ↦ (write_error 503 code_unavailable msg_metrics_unavailable, s)
    | some m ↦ (
      record {
        status = 200;
        content_type = runes "text/plain; version=0.0.4; charset=utf-8";
        body = text_body (m.render_prometheus s);
      },
      s,
    )
  ]
