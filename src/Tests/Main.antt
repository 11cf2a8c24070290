-- ===== src/Tests/Main.antt =====
-- The start of the service in a small world.
use wb_trial_task.Common.{
  ◌+◌, ◌≤◌, ◌≡◌, refl, true, false, some, none, List, [], ◌∷◌, Str, runes, decimal, arith, inl, inr,
  pos, ℕ, ite, Str-discrete, ◌*◌, sort_strings,
}
use wb_trial_task.Clock.{second}
use wb_trial_task.Normalizer.{trim_space, is_space, replace_stop_words}
use wb_trial_task.Postgres.{
  new_stop_list_repository, check_opened, migrate, apply_migrations, file_names, list, read_rows,
  read_list_version, scan_words,
}
use wb_trial_task.Stoplist.{sync}
use wb_trial_task.Validator.{Json, SearchEventPayload, new_search_event_validator}
use wb_trial_task.Kafka.{ReaderConfig, new_consumer}
use wb_trial_task.Metrics.{Collector, new_prometheus_collector}
use wb_trial_task.Metrics.Accounting.{Message, run_messages}
use wb_trial_task.Config.{Env, Config, from_env, validate, get_env_string}
use wb_trial_task.Config.Wiring.{main_system}
use wb_trial_task.App.{start}
use wb_trial_task.Main.{World, Started, main, start_storage, start_service, build_service}
use wb_trial_task.Main.Startup.{Outcome, main-Outcome}
use wb_trial_task.Window.{
  window_or_default, new_engine, add, add_at, should_rebuild, rebuild, record_query, claim_bucket,
  evict_expired_buckets, evict_bucket, remove_counts, build_snapshot_state, sort_items, insert_item,
  collect_items, rank_items, item_less,
}
use wb_trial_task.Dedup
use wb_trial_task.AntiFraud
use wb_trial_task.Dedup.{new_store, seen_or_add, look_up_or_add}
use wb_trial_task.Ingest.{
  handle_raw, handle_payload, handle_event, handle, configured_at, handle_at, normalize_and_add,
  evaluate_and_add, aggregate, finish, observe_success,
}
use wb_trial_task.Normalizer.{
  normalize, clean_text, trim_space, trim_left, trim_right, replace_runs, runs, words, fields, join,
  is_blocked, drop_blocked, is_space, matches_space,
}
use wb_trial_task.AntiFraud.{
  evaluate, evaluate_at, validate_config, prune_events, prune_session_state, clean_sessions,
  identity_keys, contribution_key, track_session, observe, capped_key, mark_keys,
  mark_contributions, contribute, roll_minute, count_request, limit_rate, session_blocked, blocked,
  new_fail_closed_evaluator,
}
use wb_trial_task.Common.Dict.{lookup, retain, insert, erase}
use wb_trial_task.Http.{main_api, get_top}
use wb_trial_task.Http.TopRead.{IsTopReply}
use wb_trial_task.Window.Sums.{sum_counts}
use wb_trial_task.Window.History.{window_count}
use wb_trial_task.Main.Serving.{counted_calls, with_ingested, main-serves_top}
use wb_trial_task.Window.Replay.{AddCall, last_second, record_calls}
use wb_trial_task.Service.Totals.{accepted_calls}
use wb_trial_task.Validator.{validate_and_map, validate_instance, map_payload}
use wb_trial_task.Config.{anti_fraud_from_env, get_env_int, get_env_duration}
use wb_trial_task.Ingest.System.{System, new_system}
use wb_trial_task.Normalizer.{normalize_stop_words, normalize_stop_words_from}
use wb_trial_task.Metrics.{inc_ingest, observe_ingest_lag_ms, report_reject}
use wb_trial_task.Common.{atoi}
use wb_trial_task.Tests.Data.{ascii, ascii-IsUnicode}
use wb_trial_task.Tests.Postgres.{Words, postgres, tables, postgres-IsPostgres, stored}

-- Every payload is an event of the query `phone`.
abbrev payload : SearchEventPayload
payload = record {
  schema_version = pos 1;
  event_type = runes "search";
  event_id = runes "e1";
  ingested_at_ms = pos 12000;
  event_time_ms = pos 12000;
  query_raw = runes "Phone";
  source = runes "search_bar";
  platform = runes "web";
  app_version = runes "1.0";
  ip_hash = runes "1";
  session_id_hash = runes "s";
  auth_state = runes "anonymous";
  user_id_hash = none;
  is_test_traffic = false;
  is_replay = false;
  producer_region = runes "eu";
  normalizer_version = runes "1";
}

abbrev json : Json (List ℕ)
json = record {
  unmarshal = λ bytes. inr bytes;
  validate = λ value. none;
  unmarshal_payload = λ bytes. inr payload;
}

abbrev world : World Words Words Str (List ℕ) ReaderConfig
world = record {
  parse_duration = λ s. none;
  unicode = ascii;
  database = postgres;
  migrations = record { read_dir = inr []; read_file = λ name. inl [] };
  sql_open = λ dsn. inr stored;
  abs = λ path. inr path;
  compile = λ path. inr (λ value. none);
  json = json;
  first_offset = pos 0;
  new_reader = λ cfg. cfg;
}

abbrev env : Env
env key = ite (Str-discrete key (runes "HTTP_ADMIN_TOKEN")) (runes "secret") (
    ite (Str-discrete key (runes "STORAGE_STOPLIST_POSTGRES_DSN")) (runes "dsn")
      (ite (Str-discrete key (runes "TOP_WINDOW_SECONDS")) (runes "3") []))

main-Outcome_example :
    Outcome world ascii-IsUnicode tables tables postgres-IsPostgres 5 env (main world 5 env)
main-Outcome_example = main-Outcome world ascii-IsUnicode tables tables postgres-IsPostgres 5 env

abbrev settings : Config
settings = from_env (λ s. none) env

abbrev started : Started Words Str (List ℕ) ReaderConfig
started = record {
  config = settings;
  server = record {
    database = stored;
    system = record (main_system ascii (runes "the" ∷ []) settings) {
      normalizer =
          replace_stop_words ascii (runes "the" ∷ [])
            (main_system ascii (runes "the" ∷ []) settings).normalizer;
    };
    collector = new_prometheus_collector;
  };
  validator = json;
  consumer = new_consumer (pos 0) (λ cfg. cfg) settings.kafka;
  app = start true true true;
}

main-started : main world 5 env ≡ inr started
unfolding main start_storage start_service build_service sync new_search_event_validator
    new_stop_list_repository check_opened migrate apply_migrations file_names sort_strings list
    read_rows read_list_version scan_words validate from_env get_env_string trim_space is_space
    Str-discrete
main-started = refl

-- A message, and the same again, which is a duplicate.
abbrev messages : List Message
messages =
    record { payload = runes "{}"; at = 12 * second }
    ∷ record { payload = runes "{}"; at = 13 * second }
    ∷ []

abbrev counted_once : AddCall
counted_once = record {
  query = runes "phone";
  score = 1;
  ingested_at_ms = pos 12000;
  now = 12 * second;
}

counted : counted_calls world started messages ≡ counted_once ∷ []
unfolding accepted_calls validate_and_map validate_instance map_payload from_env anti_fraud_from_env
    get_env_int get_env_duration get_env_string atoi new_system replace_stop_words
    normalize_stop_words normalize_stop_words_from handle_raw handle_payload handle_event handle
    configured_at handle_at normalize_and_add evaluate_and_add aggregate finish observe_success
    new_store seen_or_add look_up_or_add Dedup.cleanup lookup retain insert erase normalize
    clean_text trim_space trim_left trim_right replace_runs runs words fields join is_blocked
    drop_blocked is_space matches_space Str-discrete evaluate evaluate_at validate_config
    AntiFraud.cleanup prune_events prune_session_state clean_sessions identity_keys contribution_key
    track_session observe capped_key mark_keys mark_contributions contribute roll_minute
    count_request limit_rate session_blocked blocked new_fail_closed_evaluator add add_at
    should_rebuild rebuild new_engine record_query claim_bucket evict_expired_buckets evict_bucket
    remove_counts build_snapshot_state sort_items insert_item collect_items rank_items item_less
    inc_ingest observe_ingest_lag_ms report_reject
counted = refl

main-serves_top_example :
    (system : System) × (collector : Collector) × (run_messages ascii
        (validate_and_map json)
        messages
        (started.server.system, started.server.collector)
      ≡ some (system, collector))
    × (let server = with_ingested started system collector in
        let api =
          main_api postgres ascii 7
            (λ c. [])
            started.config.http.admin_token
            started.config.http.service_version
            started.config.kafka.enabled in
        let x = get_top api (decimal 1) 6 8 9 server in IsTopReply 1 server x.1 x.0)
    × ((q : Str)
        → let calls = counted_calls world started messages in
          sum_counts q system.engine.buckets
          ≡ window_count q
              (window_or_default started.config.window_seconds)
              (last_second calls 0)
              (record_calls calls []))
    × ((q : Str) (late : ℕ)
        → let calls = counted_calls world started messages in
          window_count q
            (window_or_default started.config.window_seconds)
            (last_second calls 0 + late)
            (record_calls calls [])
          ≤ sum_counts q system.engine.buckets)
main-serves_top_example =
    main-serves_top world ascii-IsUnicode tables tables postgres-IsPostgres 5 (λ c. []) env started
      messages 1 6 7 8 9 main-started (rw counted (omega arith, omega arith, tt)) (omega arith)
      (omega arith)
