-- ===== src/Main/Mixed.antt =====
-- cmd/trends-service/main.go at work: the consumer and the handlers of the API share the window,
-- the normalizer and the metrics, and take turns in any order.
use wb_trial_task.Common.{
  ℕ, ◌≡◌, refl, sym, ap, ◌∙◌, Bool, Option, none, some, List, [], ◌∷◌, Str, ◌⊎◌, inl, inr,
}
use wb_trial_task.Clock.{Time}
use wb_trial_task.Domain.{SearchEvent}
use wb_trial_task.Normalizer.{Unicode}
use wb_trial_task.Window.{Engine, refresh}
use wb_trial_task.Window.Invariant.{IsValid, refresh-IsValid}
use wb_trial_task.Window.Replay.{AddCall, run_adds}
use wb_trial_task.Window.Reading.{
  SameCounts, SameCounts-refl, refresh-SameCounts, run_adds-SameCounts,
}
use wb_trial_task.Stoplist.{CommandError}
use wb_trial_task.Postgres.{Database, RepoError}
use wb_trial_task.Ingest.{ErrorValue, RawError, handle_raw}
use wb_trial_task.Ingest.System.{System}
use wb_trial_task.Ingest.Consumed.{service_handler, handle_raw-returns_nil}
use wb_trial_task.Metrics.{Collector}
use wb_trial_task.Metrics.Accounting.{Message, collect}
use wb_trial_task.Service.Totals.{accepted_call, prepend, run_adds-prepend}
use wb_trial_task.Http.{
  Api, Server, main_api, get_top, list_stop_words, add_stop_word, delete_stop_word, health,
  metrics_page,
}
use wb_trial_task.Http.Keeping.{
  get_top-Refreshed, list_stop_words-engine, add_stop_word-engine, delete_stop_word-engine,
  health-Refreshed, metrics_page-same,
}

-- What the service does in one go, with the readings of the clock: it handles a message, or answers
-- a request.
pub data Action : Type 0 where
  message : Message → Action
  read_top : (raw : Str) (started_at at later end : Time) → Action
  list_words : (header : Str) (at : Time) → Action
  add_word : (header : Str) (word : Option Str) (at : Time) → Action
  remove_word : (header path_value : Str) (at : Time) → Action
  check_health : (at later : Time) → Action
  read_metrics : Action

module _ {D T E : Type 0} (db : Database D T E) (u : Unicode) (render : Collector → Str)
    (admin_token service_version : Str) (kafka_enabled : Bool)
    (validate : List ℕ → ErrorValue ⊎ SearchEvent) where
  abbrev api_at : Time → Api (Server D) (CommandError (RepoError E))
  api_at now = main_api db u now render admin_token service_version kafka_enabled

  abbrev with_ingest :
      Server D → Option (Option RawError × (System × Collector)) → Option (Server D)
  with_ingest s none = none
  with_ingest s (some (some err, w)) = none
  with_ingest s (some (none, (system, collector))) =
      some (record s { system = system; collector = collector })

  -- The server after an action; `none` is a panic or an error of the handler of messages.
  unfoldable pub act : Action → Server D → Option (Server D)
  act (message m) s =
      with_ingest s
        (handle_raw (service_handler collect u validate m.at) m.payload (s.system, s.collector))
  act (read_top raw started_at at later end) s =
      some (get_top (api_at at) raw started_at later end s).1
  act (list_words header at) s = some (list_stop_words (api_at at) header at s).1
  act (add_word header word at) s = some (add_stop_word (api_at at) header word s).1
  act (remove_word header path_value at) s =
      some (delete_stop_word (api_at at) header path_value s).1
  act (check_health at later) s = some (health (api_at at) later s).1
  act read_metrics s = some (metrics_page (api_at 0) s).1

  unfoldable pub act_all : List Action → Server D → Option (Server D)
  act_all [] s = some s
  act_all (a ∷ actions) s = elim (act a s) [ none ↦ none | some s' ↦ act_all actions s' ]

  -- What an action is worth to the window.
  abbrev pub counted_by : Action → Server D → Option AddCall
  counted_by (message m) s = accepted_call u validate m s.system
  counted_by (read_top raw started_at at later end) s = none
  counted_by (list_words header at) s = none
  counted_by (add_word header word at) s = none
  counted_by (remove_word header path_value at) s = none
  counted_by (check_health at later) s = none
  counted_by read_metrics s = none

  unfoldable pub calls_of : List Action → Server D → List AddCall
  calls_of [] s = []
  calls_of (a ∷ actions) s =
      prepend (counted_by a s) (elim (act a s) [ none ↦ [] | some s' ↦ calls_of actions s' ])

  -- An action returns, with a valid engine: the calls from there on come to the same counts when
  -- they start before the action, its own one first.
  record Acted (a : Action) (s : Server D) : Type 0 where
    after : Server D
    acts : act a s ≡ some after
    valid : IsValid after.system.engine
    counts :
        (calls : List AddCall) (e : Engine)
        → run_adds calls after.system.engine ≡ some e
        → (e' : Engine) × (run_adds (prepend (counted_by a s) calls) s.system.engine ≡ some e')
          × SameCounts e e'

  quiet-Acted :
      (a : Action) (s s' : Server D)
      → act a s ≡ some s'
      → counted_by a s ≡ none
      → (s'.system.engine ≡ s.system.engine)
        ⊎ ((now : Time) × (s'.system.engine ≡ refresh now s.system.engine))
      → IsValid s.system.engine
      → Acted a s
  quiet-Acted a s s' acts quiet (inl same) v = record {
    after = s';
    acts = acts;
    valid = rw (same) v;
    counts = λ calls e h. (e, rw (quiet) (rw (same) at h), SameCounts-refl e);
  }
  quiet-Acted a s s' acts quiet (inr (now, cached)) v = record {
    after = s';
    acts = acts;
    valid = rw (cached) (refresh-IsValid now s.system.engine v);
    counts = λ calls e h.
        let same = refresh-SameCounts now s.system.engine in
        rw (quiet) (
          run_adds-SameCounts calls (refresh now s.system.engine) s.system.engine e
            (record {
              buckets = sym same.buckets;
              totals = sym same.totals;
              window = sym same.window;
            })
            (rw (cached) at h));
  }

  act-Acted : (a : Action) (s : Server D) → IsValid s.system.engine → Acted a s
  unfolding act
  act-Acted (message m) s v =
      let (system, collector, runs, v', outcome) =
        handle_raw-returns_nil collect u validate m.at m.payload s.system s.collector v in
      record {
        after = record s { system = system; collector = collector };
        acts = rw (runs) refl;
        valid = v';
        counts = λ calls e h. (
          e,
          run_adds-prepend u validate m.at m.payload s.system s.collector system collector calls
                outcome
              ∙ h,
          SameCounts-refl e,
        );
      }
  act-Acted (read_top raw started_at at later end) s v =
      quiet-Acted (read_top raw started_at at later end) s _ refl refl
        (elim (get_top-Refreshed db u at render admin_token service_version kafka_enabled raw
          started_at later end s) [ inl same ↦ inl same | inr cached ↦ inr (at, cached) ])
        v
  act-Acted (list_words header at) s v =
      quiet-Acted (list_words header at) s _ refl refl
        (inl (
          list_stop_words-engine db u at render admin_token service_version kafka_enabled header at
            s))
        v
  act-Acted (add_word header word at) s v =
      quiet-Acted (add_word header word at) s _ refl refl
        (inl (
          add_stop_word-engine db u at render admin_token service_version kafka_enabled header word
            s))
        v
  act-Acted (remove_word header path_value at) s v =
      quiet-Acted (remove_word header path_value at) s _ refl refl
        (inl (
          delete_stop_word-engine db u at render admin_token service_version kafka_enabled header
            path_value s))
        v
  act-Acted (check_health at later) s v =
      quiet-Acted (check_health at later) s _ refl refl
        (elim (health-Refreshed db u at render admin_token service_version kafka_enabled later s) [
          | inl same ↦ inl same
          | inr cached ↦ inr (at, cached)
        ])
        v
  act-Acted read_metrics s v =
      quiet-Acted read_metrics s _ refl refl
        (inl (
          ap (λ x. x.system.engine)
            (metrics_page-same db u 0 render admin_token service_version kafka_enabled s)))
        v

  -- From a valid engine the messages and the requests, in any order and whatever they hold, are
  -- handled without a panic or an error of `HandleRaw`. The engine stays valid, and its buckets and
  -- totals are those that the calls of `Add` give that the messages are worth: no request
  -- disturbs them.
  pub act_all-run_adds :
      (actions : List Action) (s : Server D)
      → IsValid s.system.engine
      → (s' : Server D) × (e : Engine) × (act_all actions s ≡ some s')
        × (run_adds (calls_of actions s) s.system.engine ≡ some e)
        × (s'.system.engine.buckets ≡ e.buckets)
        × (s'.system.engine.totals ≡ e.totals)
        × IsValid s'.system.engine
  unfolding act_all calls_of run_adds
  act_all-run_adds [] s v = (s, s.system.engine, refl, refl, refl, refl, v)
  act_all-run_adds (a ∷ actions) s v =
      let here = act-Acted a s v in
      let (s', e, rest, adds, buckets, totals, v') =
        act_all-run_adds actions here.after here.valid in
      let (e', again, same) = here.counts (calls_of actions here.after) e adds in
      (
        s',
        e',
        rw (here.acts, act_all) rest,
        rw (here.acts, calls_of) again,
        buckets ∙ sym same.buckets,
        totals ∙ sym same.totals,
        v',
      )
