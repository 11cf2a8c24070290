-- ===== src/Ingest/Consumed.antt =====
-- What a raw message comes to: `HandleRaw` over the whole service. What it reports goes to a state
-- `R` by a function `report`: the metrics of main.go, or a log.
use wb_trial_task.Common.{
  ◌≢◌, ℕ, ◌-◌, ◌≡◌, ◌∙◌, ap, refl, true, pos, pos_part, leb_ℤ, Bool-cases, Option, none, some, List,
  arith, ◌⊎◌, inl, inr,
}
use wb_trial_task.Clock.{Time, unix_milli}
use wb_trial_task.Domain.{SearchEvent, RejectReason}
use wb_trial_task.Window.Invariant.{IsValid}
use wb_trial_task.Normalizer.{Unicode}
use wb_trial_task.Ingest.Handler.{
  Dependencies, HandleError, rejected, handler_not_configured, handle, handle_at, configured_at,
}
use wb_trial_task.Ingest.Runtime.{
  ErrorValue, RuntimeHandler, handle_raw, handle_payload, handle_event, finish, observe_success,
  reject_reason,
}
use wb_trial_task.Ingest.System.{System, system_dependencies}
use wb_trial_task.Ingest.Atomicity.{handle_now, counted_query, Settled, handle-Settled}

-- What is reported of a message: to the metrics or to the reporter of rejections.
pub data Report : Type 0 where
  counted : Report
  lag : ℕ → Report
  refused : RejectReason → Report

-- The methods on a state with another one beside it, which they leave alone.
abbrev pub beside : {S R : Type 0} → Dependencies S → Dependencies (S × R)
beside d = record {
  methods = record {
    seen_or_add = λ key now s. let (r, s') = d.methods.seen_or_add key now s.0 in (r, (s', s.1));
    normalize = λ raw s. d.methods.normalize raw s.0;
    evaluate = λ evt q now s. let (r, s') = d.methods.evaluate evt q now s.0 in (r, (s', s.1));
    add = λ q score ms now s. elim (d.methods.add q score ms now s.0) [
      | none ↦ none
      | some s' ↦ some (s', s.1)
    ];
  };
  has_normalizer = d.has_normalizer;
  has_anti_fraud = d.has_anti_fraud;
  has_deduplicator = d.has_deduplicator;
  has_aggregator = d.has_aggregator;
  clock = d.clock;
}

handle-beside :
    {S R : Type 0}
    → (d : Dependencies S) (evt : SearchEvent) (s : S) (log : R)
    → handle (beside d) evt (s, log)
      ≡ elim (handle d evt s) [ none ↦ none | some (err, s') ↦ some (err, (s', log)) ]
unfolding handle configured_at handle_at
handle-beside d evt s log = ground arith

module _ {R : Type 0} (report : Report → R → R) (u : Unicode)
    (validate : List ℕ → ErrorValue ⊎ SearchEvent) (now : Time) where
  -- The runtime handler of the service, for a validator and a reading of the clock.
  abbrev pub service_handler : RuntimeHandler (System × R)
  service_handler = record {
    parts = record {
      validate_and_map = validate;
      report_reject = λ reason s. (s.0, report (refused reason) s.1);
      inc_ingest = λ s. (s.0, report counted s.1);
      observe_ingest_lag_ms = λ ms s. (s.0, report (lag ms) s.1);
    };
    has_validator = true;
    handler = some (beside (system_dependencies u now));
    now = now;
  }

  -- Refused: one rejection is reported, with the validator's reason, or with a known one for an
  -- event that does not count, and the engine stays. Counted: the payload is an event, the
  -- handler counted it once, and one ingest is reported, with its lag where that is known.
  abbrev pub Outcome : List ℕ → System → R → System → R → Type 0
  Outcome payload s log s' log' =
      ((r : RejectReason) × (log' ≡ report (refused r) log)
        × (s'.engine ≡ s.engine)
        × (((e : ErrorValue) × (validate payload ≡ inl e) × (r ≡ reject_reason e))
            ⊎ ((evt : SearchEvent) × (validate payload ≡ inr evt)
                × (counted_query u now evt s ≡ none)
                × (r ≢ RejectReason.unknown_reject_reason))))
      ⊎ ((evt : SearchEvent) × (validate payload ≡ inr evt)
          × Settled u now evt s none s'
          × ((log' ≡ report counted log)
              ⊎ ((ms : ℕ) × (log' ≡ report (lag ms) (report counted log)))))

  record Consumed (payload : List ℕ) (s : System) (log : R) : Type 0 where
    after : System
    log_after : R
    runs : handle_raw service_handler payload (s, log) ≡ some (none, (after, log_after))
    valid : IsValid after.engine
    outcome : Outcome payload s log after log_after

  handle_raw-finish :
      (payload : List ℕ) (evt : SearchEvent) (s : System) (log : R) (err : Option HandleError)
      (s' : System)
      → validate payload ≡ inr evt
      → handle_now u now evt s ≡ some (err, s')
      → handle_raw service_handler payload (s, log)
        ≡ some (finish service_handler evt err (s', log))
  unfolding handle_raw handle_payload handle_event
  handle_raw-finish payload evt s log err s' found runs =
      rw (found, handle_event)
        (rw (handle-beside (system_dependencies u now) evt s log, handle_event) (rw runs refl))

  -- What the metrics get of an event that counted.
  observe_success_cases :
      (evt : SearchEvent) (s : System) (log : R)
      → (observe_success service_handler.parts evt now (s, log) ≡ (s, report counted log))
        ⊎ ((ms : ℕ) × (observe_success service_handler.parts evt now (s, log)
              ≡ (s, report (lag ms) (report counted log))))
  unfolding observe_success
  observe_success_cases evt s log = elim (Bool-cases (leb_ℤ evt.ingested_at_ms (pos 0))) [
    | inl unknown ↦ inl (rw unknown refl)
    | inr known ↦ inr (unix_milli now - pos_part evt.ingested_at_ms, rw known refl)
  ]

  handled-Consumed :
      (payload : List ℕ) (evt : SearchEvent) (s : System) (log : R) (err : Option HandleError)
      (s' : System)
      → validate payload ≡ inr evt
      → handle_now u now evt s ≡ some (err, s')
      → Settled u now evt s err s'
      → IsValid s'.engine
      → Consumed payload s log
  unfolding finish
  handled-Consumed payload evt s log none s' found runs settled v =
      let raw = handle_raw-finish payload evt s log none s' found runs in
      elim (observe_success_cases evt s' log) [
        | inl once ↦ record {
          after = s';
          log_after = report counted log;
          runs = raw ∙ ap (λ x. some (none, x)) once;
          valid = v;
          outcome = inr (evt, found, settled, inl refl);
        }
        | inr (ms, with_lag) ↦ record {
          after = s';
          log_after = report (lag ms) (report counted log);
          runs = raw ∙ ap (λ x. some (none, x)) with_lag;
          valid = v;
          outcome = inr (evt, found, settled, inr (ms, refl));
        }
      ]
  handled-Consumed payload evt s log (some (rejected e)) s' found runs settled v = record {
    after = s';
    log_after = report (refused e.reason) log;
    runs = handle_raw-finish payload evt s log (some (rejected e)) s' found runs;
    valid = v;
    outcome = inl (e.reason, refl, settled.0, inr (evt, found, settled.2, settled.1));
  }
  handled-Consumed payload evt s log (some handler_not_configured) s' found runs settled v =
      absurd settled

  validate_cases :
      (r : ErrorValue ⊎ SearchEvent)
      → ((e : ErrorValue) × (r ≡ inl e)) ⊎ ((evt : SearchEvent) × (r ≡ inr evt))
  validate_cases (inl e) = inl (e, refl)
  validate_cases (inr evt) = inr (evt, refl)

  handle_raw-Consumed :
      (payload : List ℕ) (s : System) (log : R) → IsValid s.engine → Consumed payload s log
  unfolding handle_raw handle_payload
  handle_raw-Consumed payload s log v = elim (validate_cases (validate payload)) [
    | inl (e, bad) ↦ record {
      after = s;
      log_after = report (refused (reject_reason e)) log;
      runs = rw bad refl;
      valid = v;
      outcome = inl (reject_reason e, refl, refl, inl (e, bad, refl));
    }
    | inr (evt, found) ↦
        let (err, s', runs, settled, kept, v') = handle-Settled u now evt s v in
        handled-Consumed payload evt s log err s' found runs settled v'
  ]

  -- On a valid engine `HandleRaw` returns nil for every payload, whatever the validator says, with
  -- a valid engine. Either it reported one rejection and left the engine as it was, of a payload
  -- that is no event or an event that does not count, or the payload is an event that the handler
  -- counted once and it reported one ingest.
  pub handle_raw-returns_nil :
      (payload : List ℕ) (s : System) (log : R)
      → IsValid s.engine
      → (s' : System) × (log' : R) × (handle_raw service_handler payload (s, log)
          ≡ some (none, (s', log')))
        × IsValid s'.engine
        × Outcome payload s log s' log'
  handle_raw-returns_nil payload s log v =
      let c = handle_raw-Consumed payload s log v in
      (c.after, c.log_after, c.runs, c.valid, c.outcome)
