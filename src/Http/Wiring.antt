-- ===== src/Http/Wiring.antt =====
-- internal/usecase/top/query.go, and the API that cmd/trends-service/main.go builds: its ports
-- over the window, the stop-list commands on the repository, and the collector.
use wb_trial_task.Common.{
  Bool, true, false, some, Str, ℤ, pos, leb_ℤ, if◌then◌else◌, ◌⊎◌, inl, inr, [],
}
use wb_trial_task.Clock.{Time}
use wb_trial_task.Domain.{TopSnapshot}
use wb_trial_task.Window.{Engine, snapshot}
use wb_trial_task.Normalizer.{Unicode, Service}
use wb_trial_task.Stoplist.{CommandError, store_error, list_words, add_word, remove_word}
use wb_trial_task.Postgres.{Database, RepoError}
use wb_trial_task.Postgres.Store.{repository_store}
use wb_trial_task.Ingest.System.{System}
use wb_trial_task.Metrics
use wb_trial_task.Metrics.{Collector, render_prometheus}
use wb_trial_task.Http.Ports.{
  Api, TopQuery, StopListCommands, ApiMetrics, DomainError, err_invalid_argument,
  err_already_exists, err_not_found, new_router,
}

-- `GetTop` of the top query, with the reading of the clock in `Snapshot`
unfoldable pub query_top : ℤ → Time → Engine → TopSnapshot × Engine
query_top n now e = snapshot (if leb_ℤ n (pos 0) then pos 10 else n) now e

-- Everything that the ports of the service share.
pub record Server (D : Type 0) : Type 0 where
  pub database : D
  pub system : System
  pub collector : Collector

-- `errors.Is`, for the errors that the commands return
abbrev pub is_domain_error : {E : Type 0} → CommandError (RepoError E) → DomainError → Bool
is_domain_error CommandError.invalid_argument err_invalid_argument = true
is_domain_error (store_error RepoError.invalid_argument) err_invalid_argument = true
is_domain_error (store_error RepoError.already_exists) err_already_exists = true
is_domain_error (store_error RepoError.not_found) err_not_found = true
is_domain_error err target = false

abbrev stop_state : {D : Type 0} → Server D → D × Service
stop_state s = (s.database, s.system.normalizer)

abbrev with_stop_state : {D : Type 0} → Server D → D × Service → Server D
with_stop_state s (d, norm) = record s {
  database = d;
  system = record s.system { normalizer = norm };
}

abbrev pub listed_result : {E A : Type 0} → E ⊎ A → CommandError E ⊎ A
listed_result (inl err) = inl (store_error err)
listed_result (inr a) = inr a

abbrev pub collector_metrics : {D : Type 0} → (Collector → Str) → ApiMetrics (Server D)
collector_metrics render = record {
  render_prometheus = λ s. render s.collector;
  set_snapshot_age_ms = λ ms s. record s { collector = Metrics.set_snapshot_age_ms ms s.collector };
  inc_top_read = λ s. record s { collector = Metrics.inc_top_read s.collector };
  observe_top_read_latency_ms =
      λ ms s. record s { collector = Metrics.observe_top_read_latency_ms ms s.collector };
}

-- The ports as a request at the time `now` meets them.
abbrev pub engine_top : {D E : Type 0} → Time → TopQuery (Server D) E
engine_top now = record {
  get_top = λ n s.
      let (snap, e) = query_top n now s.system.engine in
      (inr snap, record s { system = record s.system { engine = e } });
}

abbrev pub repository_commands :
    {D T E : Type 0}
    → Database D T E
    → Unicode
    → Time
    → StopListCommands (Server D) (CommandError (RepoError E))
repository_commands db u now = record {
  list = λ s.
      let (r, st) = list_words u (repository_store db u now) true (stop_state s) in
      (listed_result r, with_stop_state s st);
  add = λ word s.
      let (r, st) = add_word u (repository_store db u now) true word (stop_state s) in
      (r, with_stop_state s st);
  remove = λ word s.
      let (r, st) = remove_word u (repository_store db u now) true word (stop_state s) in
      (r, with_stop_state s st);
  errors_is = is_domain_error;
}

abbrev pub main_api :
    {D T E : Type 0}
    → Database D T E
    → Unicode
    → Time
    → (Collector → Str)
    → Str
    → Str
    → Bool
    → Api (Server D) (CommandError (RepoError E))
main_api db u now render admin_token service_version kafka_enabled =
    new_router (some (engine_top now)) (some (repository_commands db u now)) (record {
      admin_token = admin_token;
      service_version = service_version;
      kafka_connected = kafka_enabled;
      metrics = some (collector_metrics render);
      open_api_spec_path = [];
    })
