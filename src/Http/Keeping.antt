-- ===== src/Http/Keeping.antt =====
-- What the requests leave alone: those on the stop-list the whole engine, a read of the top its
-- counts.
use wb_trial_task.Common.{◌≡◌, refl, Bool, Option, Str, arith, ◌⊎◌}
use wb_trial_task.Clock.{Time}
use wb_trial_task.Window.{refresh, snapshot}
use wb_trial_task.Normalizer.{Unicode}
use wb_trial_task.Stoplist.{CommandError}
use wb_trial_task.Postgres.{Database, RepoError}
use wb_trial_task.Metrics.{Collector}
use wb_trial_task.Http.Ports.{Api, new_router}
use wb_trial_task.Http.TopHandlers.{
  get_top, answer_top, observe_read, health, probe, observe_age, metrics_page,
}
use wb_trial_task.Http.StopHandlers.{
  list_stop_words, add_stop_word, delete_stop_word, list_authorized, add_authorized,
  remove_authorized, guarded,
}
use wb_trial_task.Http.Wiring.{Server, query_top, main_api}

module _ {D T E : Type 0} (db : Database D T E) (u : Unicode) (now : Time)
    (render : Collector → Str) (admin_token service_version : Str) (kafka_enabled : Bool) where
  abbrev api : Api (Server D) (CommandError (RepoError E))
  api = main_api db u now render admin_token service_version kafka_enabled

  -- The engine afterwards is the engine before, or that one with a new cache.
  abbrev pub Refreshed : Server D → Server D → Type 0
  Refreshed s s' =
      (s'.system.engine ≡ s.system.engine) ⊎ (s'.system.engine ≡ refresh now s.system.engine)

  pub add_stop_word-engine :
      (header : Str) (word : Option Str) (s : Server D)
      → (add_stop_word api header word s).1.system.engine ≡ s.system.engine
  unfolding add_stop_word guarded add_authorized new_router
  add_stop_word-engine header word s = ground arith

  pub delete_stop_word-engine :
      (header path_value : Str) (s : Server D)
      → (delete_stop_word api header path_value s).1.system.engine ≡ s.system.engine
  unfolding delete_stop_word guarded remove_authorized new_router
  delete_stop_word-engine header path_value s = ground arith

  pub list_stop_words-engine :
      (header : Str) (at : Time) (s : Server D)
      → (list_stop_words api header at s).1.system.engine ≡ s.system.engine
  unfolding list_stop_words guarded list_authorized new_router
  list_stop_words-engine header at s = ground arith

  pub get_top-Refreshed :
      (raw : Str) (started_at later end : Time) (s : Server D)
      → Refreshed s (get_top api raw started_at later end s).1
  unfolding get_top answer_top observe_read query_top snapshot new_router
  get_top-Refreshed raw started_at later end s = ground arith

  pub health-Refreshed : (later : Time) (s : Server D) → Refreshed s (health api later s).1
  unfolding health probe observe_age query_top snapshot new_router
  health-Refreshed later s = ground arith

  pub metrics_page-same : (s : Server D) → (metrics_page api s).1 ≡ s
  unfolding metrics_page new_router
  metrics_page-same s = refl
