-- ===== src/Ingest/System.antt =====
-- The components as `cmd/trends-service/main.go` wires them: the state of the service, and the
-- handler's interfaces filled by the deduplicator, the normalizer, the evaluator and the window.
use wb_trial_task.Common.{true, Option, none, some, List, Str, ℤ, ◌⊎◌, inl, inr}
use wb_trial_task.Clock.{Time, Duration}
use wb_trial_task.Domain.{Cause}
use wb_trial_task.Window
use wb_trial_task.Window.{Engine, new_engine}
use wb_trial_task.Dedup.{Store, seen_or_add, new_store}
use wb_trial_task.Normalizer.{Unicode, Service, normalize, new_service}
use wb_trial_task.AntiFraud.{Config, Evaluator, evaluate, new_fail_closed_evaluator}
use wb_trial_task.Ingest.Handler.{Methods, Dependencies}

pub record System : Type 0 where
  pub dedup : Store
  pub normalizer : Service
  pub fraud : Evaluator
  pub engine : Engine

-- The objects that main.go creates, from the initial stop-list and the configuration.
unfoldable pub new_system : Unicode → List Str → Duration → Config → ℤ → System
new_system u initial_stop_words dedup_ttl fraud window_seconds = record {
  dedup = new_store dedup_ttl;
  normalizer = new_service u initial_stop_words;
  fraud = new_fail_closed_evaluator fraud;
  engine = new_engine window_seconds;
}

abbrev pub normalize_result : Option Str → Cause ⊎ Str
normalize_result none = inl Cause.err_invalid_query
normalize_result (some q) = inr q

abbrev pub with_engine : System → Option Engine → Option System
with_engine s none = none
with_engine s (some e) = some (record s { engine = e })

module _ (u : Unicode) where
  abbrev pub system_methods : Methods System
  system_methods = record {
    seen_or_add =
        λ key now s. let (seen, d) = seen_or_add key now s.dedup in (seen, record s { dedup = d });
    normalize = λ raw s. normalize_result (normalize u s.normalizer raw);
    evaluate = λ evt query now s.
        let (r, f) = evaluate evt query (some now) now s.fraud in (r, record s { fraud = f });
    add = λ query score ms now s. with_engine s (Window.add query score ms now s.engine);
  }

  -- the handler of main.go, at a reading of the clock
  abbrev pub system_dependencies : Time → Dependencies System
  system_dependencies now = record {
    methods = system_methods;
    has_normalizer = true;
    has_anti_fraud = true;
    has_deduplicator = true;
    has_aggregator = true;
    clock = some now;
  }
