-- ===== src/Main/Serving.antt =====
-- cmd/trends-service/main.go, from the start to an answer: what `GET /api/v1/top` says of the
-- messages that the started service has taken.
use mathlib.Core.Path.{subst}
use wb_trial_task.Common.{arith, ◌+◌, ℕ, ◌≡◌, ◌≤◌, some, List, [], inr, Str, decimal}
use wb_trial_task.Clock.{Time}
use wb_trial_task.Normalizer.{IsUnicode}
use wb_trial_task.Window.{window_or_default}
use wb_trial_task.Window.Sums.{sum_counts}
use wb_trial_task.Window.History.{window_count, window_count-later-le}
use wb_trial_task.Window.Replay.{AddCall, last_second, record_calls}
use wb_trial_task.Ingest.System.{System}
use wb_trial_task.Metrics.{Collector}
use wb_trial_task.Metrics.Accounting.{Message, run_messages}
use wb_trial_task.Service.Totals.{accepted_calls, IsChronological, run_messages-window_count}
use wb_trial_task.Postgres.Tables.{Tables, IsPostgres}
use wb_trial_task.Validator.{validate_and_map}
use wb_trial_task.Http.{Server, main_api, get_top}
use wb_trial_task.Http.TopRead.{IsTopReply, get_top-IsTopReply}
use wb_trial_task.Config.{Env}
use wb_trial_task.Main.{World, Started, main}
use wb_trial_task.Main.Startup.{Outcome, main-Outcome}

-- The counted messages of a started service.
abbrev pub counted_calls :
    {D T E J R : Type 0} → World D T E J R → Started D E J R → List Message → List AddCall
counted_calls w s messages =
    accepted_calls w.unicode (validate_and_map s.validator) messages
      (s.server.system, s.server.collector)

-- The server of a started service in a later state of the ingest path.
abbrev pub with_ingested : {D E J R : Type 0} → Started D E J R → System → Collector → Server D
with_ingested s system collector = record s.server { system = system; collector = collector }

module _ {D T E J R : Type 0} (w : World D T E J R) (std : IsUnicode w.unicode)
    (tables : D → Tables) (view : T → Tables) (laws : IsPostgres w.database tables view)
    (now : Time) (render : Collector → Str) where
  -- Where main has started the service, over a PostgreSQL database, and the seconds of the counted
  -- events are positive and do not go backwards: any run of messages returns, and then `GET
  -- /api/v1/top` with a number `n` from 1 to 100, at whatever time, answers 200 with exactly the `n`
  -- best queries of the ring. There the count of a query is the number of its counted events in the
  -- `window_seconds` seconds that end with the second of the last counted event, not with that of
  -- the request; and it is at least the number of its counted events in the `window_seconds`
  -- seconds that end any number of seconds later, so that no counted event is missing that is
  -- still in the window at the request.
  pub main-serves_top :
      (env : Env) (s : Started D E J R) (messages : List Message) (n : ℕ)
      (started_at at later end : Time)
      → main w now env ≡ inr s
      → IsChronological 0 (counted_calls w s messages)
      → 1 ≤ n
      → n ≤ 100
      → (system : System) × (collector : Collector) × (run_messages w.unicode
            (validate_and_map s.validator)
            messages
            (s.server.system, s.server.collector)
          ≡ some (system, collector))
        × (let server = with_ingested s system collector in
            let api =
              main_api w.database w.unicode at render s.config.http.admin_token
                s.config.http.service_version s.config.kafka.enabled in
            let x = get_top api (decimal n) started_at later end server in
            IsTopReply n server x.1 x.0)
        × ((q : Str)
            → let calls = counted_calls w s messages in
              sum_counts q system.engine.buckets
              ≡ window_count q
                  (window_or_default s.config.window_seconds)
                  (last_second calls 0)
                  (record_calls calls []))
        × ((q : Str) (late : ℕ)
            → let calls = counted_calls w s messages in
              window_count q
                (window_or_default s.config.window_seconds)
                (last_second calls 0 + late)
                (record_calls calls [])
              ≤ sum_counts q system.engine.buckets)
  main-serves_top env s messages n started_at at later end starts order low high =
      let ready =
        (subst (Outcome w std tables view laws now env) starts
          (main-Outcome w std tables view laws now env)).1 in
      let (system, collector, runs, v, counts) =
        run_messages-window_count w.unicode (validate_and_map s.validator) messages
          s.config.window_seconds s.server.system s.server.collector ready.fresh order in
      (
        system,
        collector,
        runs,
        get_top-IsTopReply w.database w.unicode render s.config.http.admin_token
            s.config.http.service_version s.config.kafka.enabled n started_at at later end
            (with_ingested s system collector) low high v,
        counts,
        λ q late. omega (
          arith,
          counts q,
          window_count-later-le q (window_or_default s.config.window_seconds)
              (last_second (counted_calls w s messages) 0) late
              (record_calls (counted_calls w s messages) []),
        ),
      )
