-- ===== src/Main/Startup.antt =====
-- cmd/trends-service/main.go: what is true of the service when main calls `Run`, and of the ends
-- before.
use mathlib.Core.Path.{subst}
use wb_trial_task.Common.{
  sym, ◌≡◌, refl, true, false, none, some, List, Str, ℤ, pos, ltb_ℤ, ◌⊎◌, inl, inr, is_empty, runes,
  Bool-cases, Sum-cases, Option-cases, answers,
}
use wb_trial_task.Clock.{Time}
use wb_trial_task.Normalizer.{IsUnicode, Service, is_blocked, replace_stop_words}
use wb_trial_task.Normalizer.StopWords.{
  stop_form, IsListed, IsListed-origin, is_blocked-replace_stop_words,
}
use wb_trial_task.Window.{new_engine}
use wb_trial_task.Window.Invariant.{IsValid}
use wb_trial_task.AntiFraud.{validate_config}
use wb_trial_task.Kafka
use wb_trial_task.Kafka.{ConsumerState, new_consumer}
use wb_trial_task.Stoplist.{sync, store_error}
use wb_trial_task.Stoplist.Sync.{HasWord-IsListed}
use wb_trial_task.Postgres.{RepoError, list, new_stop_list_repository}
use wb_trial_task.Postgres.Tables.{Tables, IsPostgres}
use wb_trial_task.Postgres.Store.{repository_store, list-Listing}
use wb_trial_task.Postgres.Keeping.{list-tables}
use wb_trial_task.Validator.{new_search_event_validator}
use wb_trial_task.Ingest.System.{new_system}
use wb_trial_task.Config.{Env, from_env, validate}
use wb_trial_task.Config.Validation.{IsGiven, validate-from_env}
use wb_trial_task.Config.Wiring.{main_system, IsUsable, main-starts_ready}
use wb_trial_task.Main.{
  World, invalid_config, storage, schema, sync_failed, Started, Start, build_service, start_service,
  start_storage, main,
}

module _ {D T E J R : Type 0} (w : World D T E J R) (std : IsUnicode w.unicode)
    (tables : D → Tables) (view : T → Tables) (laws : IsPostgres w.database tables view)
    (now : Time) where
  -- The normalizer blocks every stored word, and nothing but the forms of stored words.
  pub record BlocksStored (s : Started D E J R) : Type 0 where
    pub complete :
        (x : Str)
        → stop_form w.unicode x ≡ x
        → is_empty x ≡ false
        → (tables s.server.database).has_word x ≡ true
        → is_blocked s.server.system.normalizer.stop_words x ≡ true
    pub sound :
        (x : Str)
        → is_blocked s.server.system.normalizer.stop_words x ≡ true
        → (y : Str) × ((tables s.server.database).has_word y ≡ true) × (stop_form w.unicode y ≡ x)

  -- A reader exactly if the consumer is enabled.
  abbrev pub HasReader : ConsumerState R → Type 0
  HasReader c =
      ((c.cfg.enabled ≡ true) × (r : R) × (c.reader ≡ some r))
      ⊎ ((c.cfg.enabled ≡ false) × (c.reader ≡ none))

  -- The parts that main has built: in their invariants, with a new engine of the configured size
  -- and with the stop-list of the database.
  pub record IsReady (s : Started D E J R) : Type 0 where
    pub engine : IsValid s.server.system.engine
    pub fresh : s.server.system.engine ≡ new_engine s.config.window_seconds
    pub fraud : validate_config s.server.system.fraud.cfg ≡ none
    pub dedup : ltb_ℤ (pos 0) s.server.system.dedup.ttl ≡ true
    pub consumer : IsUsable s.consumer.cfg
    pub reader : HasReader s.consumer
    pub stop_list : BlocksStored s

  abbrev pub BothGiven : Env → Type 0
  BothGiven env =
      IsGiven env (runes "HTTP_ADMIN_TOKEN") × IsGiven env (runes "STORAGE_STOPLIST_POSTGRES_DSN")

  -- What main comes to.
  abbrev pub Outcome : Env → Start w now → Type 0
  Outcome env (inr s) = BothGiven env × IsReady s
  Outcome env (inl (invalid_config missing, d)) = (d ≡ none) × (BothGiven env → ⊥)
  Outcome env (inl (storage err, d)) = BothGiven env
  Outcome env (inl (schema err, d)) = BothGiven env
  Outcome env (inl (sync_failed err, d)) = BothGiven env

  new_consumer-HasReader :
      (cfg : Kafka.Config) → HasReader (new_consumer w.first_offset w.new_reader cfg)
  unfolding new_consumer
  new_consumer-HasReader cfg = elim (Bool-cases cfg.enabled) [
    | inl on ↦ rw (on) (inl (refl, _, refl))
    | inr off ↦ rw (off) (inr (refl, refl))
  ]

  -- The words of a list that was read are those of the tables.
  listed-BlocksStored :
      (s : Started D E J R) (d : D) (words : List Str) (v : ℤ)
      → (list w.database d).0 ≡ inr (words, v)
      → tables s.server.database ≡ tables d
      → ((x : Str)
          → is_blocked s.server.system.normalizer.stop_words x ≡ true
          → IsListed w.unicode x words)
      → ((x : Str)
          → IsListed w.unicode x words
          → is_blocked s.server.system.normalizer.stop_words x ≡ true)
      → BlocksStored s
  listed-BlocksStored s d words v given same out into =
      let l =
        list-Listing w.unicode std w.database tables view laws now v words d (list w.database d).1
          (answers (list w.database d) (inr (words, v)) given) in
      record {
        complete = λ x own full stored. into x (
            HasWord-IsListed w.unicode (repository_store w.database w.unicode now) x words own full
              (laws.select_complete l.rows words d l.d' x l.selected l.scanned l.ended
                (rw (same) at stored)));
        sound = λ x blocked.
            let (y, has, form) = IsListed-origin w.unicode x words (out x blocked) in
            (
              y,
              rw (same) (laws.select_sound l.rows words d l.d' y l.selected l.scanned l.ended has),
              form,
            );
      }

  sync_read :
      (d : D) (norm : Service) (words : List Str) (v : ℤ)
      → (list w.database d).0 ≡ inr (words, v)
      → sync w.unicode (repository_store w.database w.unicode now) true (d, norm)
        ≡ (none, ((list w.database d).1, replace_stop_words w.unicode words norm))
  unfolding sync
  sync_read d norm words v read = rw (read) refl

  sync_fails :
      (d : D) (norm : Service) (err : RepoError E)
      → (list w.database d).0 ≡ inl err
      → sync w.unicode (repository_store w.database w.unicode now) true (d, norm)
        ≡ (some (store_error err), ((list w.database d).1, norm))
  unfolding sync
  sync_fails d norm err failure = rw (failure) refl

  start_service-Outcome :
      (env : Env) (words : List Str) (d : D)
      → BothGiven env
      → let cfg = from_env w.parse_duration env in
        Outcome env (start_service w now cfg (main_system w.unicode words cfg) d)
  unfolding start_service build_service
  start_service-Outcome env words d given =
      let cfg = from_env w.parse_duration env in
      let system = main_system w.unicode words cfg in
      let (engine, fraud, dedup, consumer) =
        main-starts_ready w.unicode w.parse_duration env words w.first_offset in
      elim (Sum-cases
        (new_search_event_validator w.abs w.compile w.json cfg.search_event_schema_path)) [
          | inl (err, failure) ↦ rw (failure, Outcome) given
          | inr (validator, compiled) ↦ elim (Sum-cases (list w.database d).0) [
            | inl (err, failure) ↦
                rw (compiled, Outcome)
                  (subst (λ r. Outcome env (build_service w now cfg system validator r))
                    (sym (sync_fails d system.normalizer err failure)) given)
            | inr ((listed, v), read) ↦
                rw (compiled, Outcome)
                  (subst (λ r. Outcome env (build_service w now cfg system validator r))
                    (sym (sync_read d system.normalizer listed v read))
                    (
                      given,
                      record {
                        engine = engine;
                        fresh = unfold new_system in refl;
                        fraud = fraud;
                        dedup = dedup;
                        consumer = unfold new_consumer in consumer;
                        reader = new_consumer-HasReader cfg.kafka;
                        stop_list =
                            listed-BlocksStored _ d listed v read
                              (list-tables w.unicode std w.database tables view laws now d)
                              (λ x.
                                (is_blocked-replace_stop_words w.unicode x listed
                                  system.normalizer).0)
                              (λ x.
                                (is_blocked-replace_stop_words w.unicode x listed
                                  system.normalizer).1);
                      },
                    ))
          ]
        ]

  start_storage-Outcome :
      (env : Env) (d : D)
      → BothGiven env
      → Outcome env (start_storage w now (from_env w.parse_duration env) d)
  unfolding start_storage
  start_storage-Outcome env d given = elim (Sum-cases (list w.database d).0) [
    | inl (err, failure) ↦ rw (failure, Outcome) given
    | inr ((words, v), given_words) ↦
        rw (given_words, Outcome) (start_service-Outcome env words (list w.database d).1 given)
  ]

  -- Whatever the environment holds, over a PostgreSQL database: main ends with the error of
  -- `Validate` and without a database exactly where the admin token or the address of the database
  -- is not given. With any other error that ends it they are given. Where it calls `Run` they are
  -- given, and the parts are ready: the engine is new and valid, the evaluator accepts its
  -- configuration, the time to live of event ids is positive, the consumer's configuration is in
  -- range, with a reader exactly if it is enabled, and the normalizer blocks every stored word in
  -- its own form that is not empty, and nothing but the forms of stored words.
  pub main-Outcome : (env : Env) → Outcome env (main w now env)
  unfolding main
  main-Outcome env =
      let cfg = from_env w.parse_duration env in
      let (passes, fails) = validate-from_env w.parse_duration env in
      elim (Option-cases (validate cfg)) [
        | inr (missing, bad) ↦ rw (bad, Outcome) (refl, λ given. cc (bad, fails given))
        | inl ok ↦
            elim (Sum-cases (
              new_stop_list_repository w.database w.migrations w.sql_open
                cfg.stop_list_postgres_dsn)) [
                  | inl ((err, d), failure) ↦ rw (ok, Outcome, failure) (passes ok)
                  | inr (d, opened) ↦
                      rw (ok, Outcome, opened) (start_storage-Outcome env d (passes ok))
                ]
      ]
