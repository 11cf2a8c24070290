-- ===== src/Main.antt =====
-- cmd/trends-service/main.go: the start of the service, with the errors that end it. The libraries,
-- the database, the file system and the environment are arguments.
pub mod Startup
pub mod Serving
pub mod Mixed
use wb_trial_task.Common.{
  ◌≡◌, Bool, true, Option, none, some, List, Str, ℤ, ◌⊎◌, inl, inr, if◌then◌else◌,
}
use wb_trial_task.Clock.{Time, Duration}
use wb_trial_task.Domain.{Cause}
use wb_trial_task.Normalizer.{Unicode, Service}
use wb_trial_task.Stoplist.{CommandError, sync}
use wb_trial_task.Postgres.{Database, RepoError, Migrations, list, new_stop_list_repository}
use wb_trial_task.Postgres.Store.{repository_store}
use wb_trial_task.Validator.{Json, SchemaError, new_search_event_validator}
use wb_trial_task.Kafka
use wb_trial_task.Kafka.{ConsumerState, ReaderConfig, new_consumer}
use wb_trial_task.Ingest.System.{System}
use wb_trial_task.Metrics.{new_prometheus_collector}
use wb_trial_task.Http.{Server}
use wb_trial_task.App
use wb_trial_task.App.{App, RunError, start, http_server_required, ended}
use wb_trial_task.Config.{Env, Config, from_env, validate}
use wb_trial_task.Config.Wiring.{main_system}

-- The calls that main makes of the world: of the database `D`, of the schema's library with values
-- `J`, and of the Kafka library with readers `R`.
pub record World (D T E J R : Type 0) : Type 0 where
  pub parse_duration : Str → Option Duration
  pub unicode : Unicode
  pub database : Database D T E
  pub migrations : Migrations E
  pub sql_open : Str → E ⊎ D
  pub abs : Str → E ⊎ Str
  pub compile : Str → E ⊎ (J → Option Cause)
  pub json : Json J
  pub first_offset : ℤ
  pub new_reader : ReaderConfig → R

-- The error of a `log.Fatal`, by the call that returned it.
pub data Fatal (E : Type 0) : Type 0 where
  invalid_config : List Str → Fatal E
  storage : RepoError E → Fatal E
  schema : SchemaError E → Fatal E
  sync_failed : CommandError (RepoError E) → Fatal E

-- What main has built when it calls `Run`.
pub record Started (D E J R : Type 0) : Type 0 where
  pub config : Config
  pub server : Server D
  pub validator : Json J
  pub consumer : ConsumerState R
  pub app : App E

module _ {D T E J R : Type 0} (w : World D T E J R) (now : Time) where
  -- An end by `log.Fatal` has the database that was opened, if there is one: the deferred `Close`
  -- does not run.
  abbrev pub Start : Type 0
  Start = (Fatal E × Option D) ⊎ Started D E J R

  -- The stages of main, each the rest of it from there on. This is the one behind `Sync`.
  unfoldable pub build_service :
      Config → System → Json J → Option (CommandError (RepoError E)) × (D × Service) → Start
  build_service cfg system validator (some err, (d, norm)) = inl (sync_failed err, some d)
  build_service cfg system validator (none, (d, norm)) = inr (record {
    config = cfg;
    server = record {
      database = d;
      system = record system { normalizer = norm };
      collector = new_prometheus_collector;
    };
    validator = validator;
    consumer = new_consumer w.first_offset w.new_reader cfg.kafka;
    app = start true true true;
  })

  unfoldable pub start_service : Config → System → D → Start
  unfolding build_service
  start_service cfg system d =
      elim (new_search_event_validator w.abs w.compile w.json cfg.search_event_schema_path) [
        | inl err ↦ inl (schema err, some d)
        | inr validator ↦
            build_service cfg system validator (
              sync w.unicode (repository_store w.database w.unicode now) true
                (d, system.normalizer))
      ]

  unfoldable pub start_storage : Config → D → Start
  unfolding start_service
  start_storage cfg d =
      let (r, d') = list w.database d in
      elim r [
        | inl err ↦ inl (storage err, some d')
        | inr (initial_stop_words, version) ↦
            start_service cfg (main_system w.unicode initial_stop_words cfg) d'
      ]

  -- `main`, up to the call of `Run`
  unfoldable pub main : Env → Start
  unfolding start_storage
  main env =
      let cfg = from_env w.parse_duration env in
      elim (validate cfg) [
        | some missing ↦ inl (invalid_config missing, none)
        | none ↦
            elim (new_stop_list_repository w.database w.migrations w.sql_open
              cfg.stop_list_postgres_dsn) [
                | inl (err, d) ↦ inl (storage err, d)
                | inr d ↦ start_storage cfg d
              ]
      ]

-- The end of main: the error of `Run` with which it exits. `is_canceled` is `err ==
-- context.Canceled`.
unfoldable pub exit_error : {E : Type 0} → (E → Bool) → Option (RunError E) → Option (RunError E)
exit_error is_canceled none = none
exit_error is_canceled (some http_server_required) = some http_server_required
exit_error is_canceled (some (ended err)) = if is_canceled err then none else some (ended err)
