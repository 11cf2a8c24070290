-- ===== src/Tests/Ingest.antt =====
-- The handler of the whole service on small inputs.
use wb_trial_task.Common.{
  none, ℕ, ◌⊎◌, inl, inr, is_empty, if◌then◌else◌, ◌*◌, ◌≡◌, refl, Option, some, List, [], ◌∷◌,
  arith, runes, pos,
}
use wb_trial_task.Common.Dict.{lookup, retain}
use wb_trial_task.Clock.{second}
use wb_trial_task.Domain.{SearchEvent, RejectReason, Cause}
use wb_trial_task.Dedup.{new_store, seen_or_add, cleanup, look_up_or_add}
use wb_trial_task.Window.Invariant.{IsValid}
use wb_trial_task.Ingest.{HandleError, reject, ErrorValue, reject_error, handle_raw}
use wb_trial_task.Ingest.Consumed.{Report, Outcome, service_handler, handle_raw-returns_nil}
use wb_trial_task.Ingest.System.{System}
use wb_trial_task.Ingest.Atomicity.{handle_now, Settled, Kept, handle-Settled}
use wb_trial_task.Ingest.Duplicates.{Delivery, run_deliveries, redelivery_counts_once}
use wb_trial_task.Tests.Data.{ascii, busy_engine, busy_engine-IsValid, strict_evaluator, event}

abbrev pub system : System
system = record {
  dedup = new_store (pos (30 * second));
  normalizer = record { stop_words = [] };
  fraud = strict_evaluator;
  engine = busy_engine;
}

abbrev search : SearchEvent
search = event (runes "e1") (runes "Phone!") (runes "1") (runes "s")

handle-Settled_example :
    (err : Option HandleError) × (s' : System) × (handle_now ascii (12 * second) search system
      ≡ some (err, s'))
    × Settled ascii (12 * second) search system err s'
    × Kept ascii (12 * second) search system s'
    × IsValid s'.engine
handle-Settled_example = handle-Settled ascii (12 * second) search system busy_engine-IsValid

abbrev first : Delivery
first = record { at = 12 * second; event = search }

abbrev again : Delivery
again = record { at = 15 * second; event = search }

abbrev between : List Delivery
between =
    record { at = 13 * second; event = event (runes "e2") (runes "case") (runes "2") (runes "t") }
    ∷ []

redelivery_counts_once_example :
    (s₁ : System) × (s₂ : System) × (run_deliveries ascii (first ∷ between) system ≡ some s₁)
    × (handle_now ascii (15 * second) search s₁
        ≡ some (some (reject RejectReason.duplicate_event_id Cause.duplicate_event), s₂))
    × (s₂.engine ≡ s₁.engine)
unfolding seen_or_add cleanup new_store look_up_or_add retain lookup
redelivery_counts_once_example =
    redelivery_counts_once ascii first again between system busy_engine-IsValid refl refl refl
      (omega arith, tt) (omega arith)

-- A validator that knows one event and refuses the empty payload.
abbrev pub accept_full : List ℕ → ErrorValue ⊎ SearchEvent
accept_full payload =
    if is_empty payload
    then inl (reject_error (record { reason = RejectReason.invalid_json; err = none }))
    else inr search

abbrev log_report : Report → List Report → List Report
log_report r log = r ∷ log

handle_raw-returns_nil_example :
    (s' : System) × (log' : List Report) × (handle_raw
        (service_handler log_report ascii accept_full (12 * second))
        (runes "{}")
        (system, [])
      ≡ some (none, (s', log')))
    × IsValid s'.engine
    × Outcome log_report ascii accept_full (12 * second) (runes "{}") system [] s' log'
handle_raw-returns_nil_example =
    handle_raw-returns_nil log_report ascii accept_full (12 * second) (runes "{}") system []
      busy_engine-IsValid
