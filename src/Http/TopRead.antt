-- ===== src/Http/TopRead.antt =====
-- handlers_top.go over the window: what `GET /api/v1/top` answers.
use wb_trial_task.Common.{
  ℕ, ◌≡◌, refl, Bool, false, Str, ◌≤◌, ℤ, pos, arith, decimal, increment, inl, inr, ◌==◌, List,
  leb_ℤ,
}
use wb_trial_task.Clock.{Time, unix_milli}
use wb_trial_task.Domain.{TopItem}
use wb_trial_task.Window.{snapshot, limit_or_default}
use wb_trial_task.Window.Invariant.{IsValid}
use wb_trial_task.Window.Top.{IsTop, snapshot-IsTop}
use wb_trial_task.Normalizer.{Unicode}
use wb_trial_task.Postgres.{Database}
use wb_trial_task.Metrics.{
  Collector, set_snapshot_age_ms, inc_top_read, observe_top_read_latency_ms,
}
use wb_trial_task.Http.Response.{Response, top_body}
use wb_trial_task.Http.Ports.{new_router}
use wb_trial_task.Http.TopHandlers.{snapshot_lag_ms, observe_read, answer_top, get_top}
use wb_trial_task.Http.Wiring.{Server, query_top, main_api}
use wb_trial_task.Http.Numbers.{parse_top_n-decimal}

-- A reply with the `n` best queries that the server's ring holds.
pub record IsTopReply {D : Type 0} (n : ℕ) (s s' : Server D) (r : Response) : Type 0 where
  pub generated_at_ms : ℕ
  pub items : List TopItem
  pub freshness_lag_ms : ℤ
  pub status : r.status ≡ 200
  pub body :
      r.body
      ≡ top_body generated_at_ms s.system.engine.window_seconds (pos n) items freshness_lag_ms
  pub top : IsTop n s.system.engine items
  pub valid : IsValid s'.system.engine
  pub totals : s'.system.engine.totals ≡ s.system.engine.totals
  pub counted : s'.collector.top_read_total ≡ increment s.collector.top_read_total
  pub database : s'.database ≡ s.database

module _ {D T E : Type 0} (db : Database D T E) (u : Unicode) (render : Collector → Str)
    (admin_token service_version : Str) (kafka_enabled : Bool) where
  -- For a number from 1 to 100 in decimal digits and over a valid engine, the answer is 200 with
  -- exactly that many best queries of those that the buckets of the ring hold, or all where there
  -- are fewer, whatever the stop-list is and however old the buckets are at the time of the request,
  -- and the window's size in seconds; the read is counted, the database stays, and the engine stays
  -- valid with its totals.
  pub get_top-IsTopReply :
      (n : ℕ) (started_at at now end : Time) (s : Server D)
      → 1 ≤ n
      → n ≤ 100
      → IsValid s.system.engine
      → let api = main_api db u at render admin_token service_version kafka_enabled in
        let x = get_top api (decimal n) started_at now end s in IsTopReply n s x.1 x.0
  unfolding get_top answer_top observe_read new_router query_top observe_top_read_latency_ms
      set_snapshot_age_ms inc_top_read
  get_top-IsTopReply n started_at at now end s low high v =
      elim (parse_top_n-decimal n (omega arith)) [
        | inr (out, refused) ↦ absurd (ground arith)
        | inl (l, h, parsed) ↦
            let (top, window, buckets, totals, clean, valid) =
              snapshot-IsTop (pos n) at s.system.engine v in
            let snap = (snapshot (pos n) at s.system.engine).0 in
            let positive : leb_ℤ (pos n) (pos 0) ≡ false = ground arith in
            let limit : limit_or_default (pos n) ≡ n = ground arith in
            let some_window : (snap.window_seconds == 0) ≡ false =
              ground (arith, window, v.window_pos) in
            rw (parsed, get_top, positive)
              (record {
                generated_at_ms = snap.generated_at_ms;
                items = snap.items;
                freshness_lag_ms = snapshot_lag_ms (unix_milli now) snap.generated_at_ms;
                status = refl;
                body = rw (some_window, window) refl;
                top = rw (limit) at top;
                valid = valid;
                totals = totals;
                counted = refl;
                database = refl;
              })
      ]
