-- ===== src/Tests/Service.antt =====
-- The service behind a reader that is a list of messages.
use wb_trial_task.Common.{
  ◌≡◌, refl, true, false, ℕ, Option, none, List, [], ◌∷◌, ◌++◌, ◌⊎◌, inl, inr, ◌+◌, ◌*◌, ◌%◌, ◌^◌,
  runes, pos, Str-discrete, ◌≤◌, some,
}
use wb_trial_task.Window.Invariant.{IsValid}
use wb_trial_task.Kafka.{Outside, run}
use wb_trial_task.Ingest.{RawError}
use wb_trial_task.Metrics.{
  Collector, new_prometheus_collector, inc_ingest, observe_ingest_lag_ms, report_reject,
}
use wb_trial_task.Metrics.Accounting.{Message, messages_counted, run_messages}
use wb_trial_task.Service.{IsReliable, service_consumer, run-commits_all}
use wb_trial_task.Window.{
  new_engine, add, add_at, should_rebuild, rebuild, record_query, claim_bucket,
  evict_expired_buckets, evict_bucket, remove_counts, build_snapshot_state, sort_items, insert_item,
  collect_items, rank_items, item_less,
}
use wb_trial_task.Window.Replay.{AddCall, run_adds}
use wb_trial_task.Dedup
use wb_trial_task.AntiFraud
use wb_trial_task.Dedup.{new_store, seen_or_add, look_up_or_add}
use wb_trial_task.Ingest.{
  handle_raw, handle_payload, handle_event, handle, configured_at, handle_at, normalize_and_add,
  evaluate_and_add, aggregate, finish, observe_success,
}
use wb_trial_task.Ingest.System.{System}
use wb_trial_task.Normalizer.{
  normalize, clean_text, trim_space, trim_left, trim_right, replace_runs, runs, words, fields, join,
  is_blocked, drop_blocked, is_space, matches_space,
}
use wb_trial_task.AntiFraud.{
  evaluate, evaluate_at, validate_config, prune_events, prune_session_state, clean_sessions,
  identity_keys, contribution_key, track_session, observe, capped_key, mark_keys,
  mark_contributions, contribute, roll_minute, count_request, limit_rate, session_blocked, blocked,
  new_fail_closed_evaluator,
}
use wb_trial_task.Common.Dict.{get, lookup, retain, insert, erase}
use wb_trial_task.Clock.{second}
use wb_trial_task.Service.Bounds.{run_messages-totals_le}
use wb_trial_task.Service.Totals.{accepted_calls, run_messages-run_adds}
use wb_trial_task.Tests.Data.{ascii, busy_engine-IsValid}
use wb_trial_task.Tests.Ingest.{system, accept_full}
use wb_trial_task.Tests.Kafka.{config}
use wb_trial_task.Tests.Metrics.{messages}

record Topic : Type 0 where
  pending : List Message
  committed : List Message

abbrev fetch : List Message → List Message → (ℕ ⊎ Message) × Topic
fetch [] done = (inl 0, record { pending = []; committed = done })
fetch (m ∷ ms) done = (inr m, record { pending = ms; committed = done })

abbrev reader : Outside Topic Message ℕ
reader = record {
  fetch_message = λ r. fetch r.pending r.committed;
  commit_messages =
      λ m r. (none, record { pending = r.pending; committed = r.committed ++ (m ∷ []) });
  close = λ r. r;
  handler = λ m r. (none, r);
  ctx_err = λ r. none;
  wait_done = λ r. r;
  wait_timer = λ d r. r;
  is_rebalance = λ e. false;
  is_context_error = λ e. false;
}

reader-IsReliable : IsReliable reader (λ r. r.pending) (λ r. r.committed)
reader-IsReliable = record {
  fetches = λ r m ms e. rw (e) (refl, refl, refl);
  commits = λ m r. (refl, refl, refl);
}

abbrev topic : Topic
topic = record { pending = messages; committed = [] }

abbrev as_error : Option RawError → ℕ
as_error err = 1

run-commits_all_example :
    let x =
      run
        (service_consumer ascii accept_full as_error reader)
        config
        true
        true
        3
        (topic, (system, new_prometheus_collector)) in
    (x.0 ≡ none)
    × (x.1.0.pending ≡ [])
    × (x.1.0.committed ≡ messages)
    × IsValid x.1.1.0.engine
    × (messages_counted x.1.1.1 % 2 ^ 64 ≡ (messages_counted new_prometheus_collector + 3) % 2 ^ 64)
run-commits_all_example =
    run-commits_all ascii accept_full as_error reader config (λ r. r.pending) (λ r. r.committed)
      reader-IsReliable topic system new_prometheus_collector refl busy_engine-IsValid

-- The service as it starts, with a window of three seconds.
abbrev fresh : System
fresh = record system { engine = new_engine (pos 3) }

abbrev counted_once : AddCall
counted_once = record {
  query = runes "phone";
  score = 1;
  ingested_at_ms = pos 12000;
  now = 12 * second;
}

-- Of the three messages the second is a duplicate and the third no event.
accepted_once :
    accepted_calls ascii accept_full messages (fresh, new_prometheus_collector) ≡ counted_once ∷ []
unfolding accepted_calls handle_raw handle_payload handle_event handle configured_at handle_at
    normalize_and_add evaluate_and_add aggregate finish observe_success new_store seen_or_add
    look_up_or_add Dedup.cleanup lookup retain insert erase normalize clean_text trim_space
    trim_left trim_right replace_runs runs words fields join is_blocked drop_blocked is_space
    matches_space Str-discrete evaluate evaluate_at validate_config AntiFraud.cleanup prune_events
    prune_session_state clean_sessions identity_keys contribution_key track_session observe
    capped_key mark_keys mark_contributions contribute roll_minute count_request limit_rate
    session_blocked blocked new_fail_closed_evaluator add add_at should_rebuild rebuild new_engine
    record_query claim_bucket evict_expired_buckets evict_bucket remove_counts build_snapshot_state
    sort_items insert_item collect_items rank_items item_less inc_ingest observe_ingest_lag_ms
    report_reject
accepted_once = refl

run_messages-run_adds_example :
    (s' : System) × (c' : Collector) × (run_messages ascii accept_full messages
        (system, new_prometheus_collector)
      ≡ some (s', c'))
    × (run_adds
          (accepted_calls ascii accept_full messages (system, new_prometheus_collector))
          system.engine
        ≡ some s'.engine)
    × IsValid s'.engine
run_messages-run_adds_example =
    run_messages-run_adds ascii accept_full messages system new_prometheus_collector
      busy_engine-IsValid

run_messages-totals_le_example :
    (s' : System) × (c' : Collector) × (run_messages ascii accept_full messages
        (system, new_prometheus_collector)
      ≡ some (s', c'))
    × (get (runes "phone") s'.engine.totals ≤ get (runes "phone") system.engine.totals + 3)
run_messages-totals_le_example =
    run_messages-totals_le ascii accept_full (runes "phone") messages system
      new_prometheus_collector busy_engine-IsValid
