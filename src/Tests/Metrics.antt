-- ===== src/Tests/Metrics.antt =====
-- The collector on small runs of the service.
use wb_trial_task.Common.{◌≡◌, ◌+◌, ◌*◌, ◌%◌, ◌^◌, some, List, [], ◌∷◌, runes, length}
use wb_trial_task.Clock.{second}
use wb_trial_task.Window.Invariant.{IsValid}
use wb_trial_task.Ingest.System.{System}
use wb_trial_task.Metrics.{Collector, new_prometheus_collector}
use wb_trial_task.Metrics.Accounting.{
  Message, messages_counted, run_messages, run_messages-counts_all,
}
use wb_trial_task.Tests.Data.{ascii, busy_engine-IsValid}
use wb_trial_task.Tests.Ingest.{system, accept_full}

-- An event, the same event again, and an empty payload.
abbrev pub messages : List Message
messages =
    record { payload = runes "{}"; at = 12 * second }
    ∷ record { payload = runes "{}"; at = 13 * second }
    ∷ record { payload = []; at = 14 * second }
    ∷ []

run_messages-counts_all_example :
    (s' : System) × (c' : Collector) × (run_messages ascii accept_full messages
        (system, new_prometheus_collector)
      ≡ some (s', c'))
    × IsValid s'.engine
    × (messages_counted c' % 2 ^ 64
        ≡ (messages_counted new_prometheus_collector + length messages) % 2 ^ 64)
run_messages-counts_all_example =
    run_messages-counts_all ascii accept_full messages system new_prometheus_collector
      busy_engine-IsValid
