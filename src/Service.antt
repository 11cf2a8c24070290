-- ===== src/Service.antt =====
-- cmd/trends-service/main.go: the consumer over the runtime handler of the service, with a reader
-- of the Kafka library that is a parameter.
pub mod Totals
pub mod Bounds
use wb_trial_task.Common.{
  ℕ, ◌+◌, ◌%◌, ◌^◌, ◌≡◌, refl, sym, ap, ◌∙◌, true, Option, none, some, List, [], ◌∷◌, ◌++◌, ◌⊎◌,
  inr, arith, length,
}
use mathlib.Core.List.{append_assoc, append-nil}
use wb_trial_task.Domain.{SearchEvent}
use wb_trial_task.Window.Invariant.{IsValid}
use wb_trial_task.Normalizer.{Unicode}
use wb_trial_task.Kafka.{Config, Outside, RunError, consume, run_rounds, run}
use wb_trial_task.Kafka.Progress.{consume_once}
use wb_trial_task.Ingest.{ErrorValue, RawError, handle_raw}
use wb_trial_task.Ingest.System.{System}
use wb_trial_task.Ingest.Consumed.{service_handler, handle_raw-returns_nil}
use wb_trial_task.Metrics.{Collector}
use wb_trial_task.Metrics.Accounting.{Message, collect, messages_counted, Outcome-messages_counted}

-- The error of a handler, for the result of `HandleRaw`; a result of none is a panic.
abbrev handler_result :
    {S E : Type 0} → (Option RawError → E) → S → Option (Option RawError × S) → Option E × S
handler_result as_error s none = (some (as_error none), s)
handler_result as_error s (some (none, s')) = (none, s')
handler_result as_error s (some (some err, s')) = (some (as_error (some err)), s')

-- A reader on a state `R` that holds the messages `pending`, gives them one after the other, and
-- commits what it is told to; `committed` are the messages of its commits, in their order.
pub record IsReliable {R E : Type 0} (o : Outside R Message E)
    (pending committed : R → List Message) : Type 0 where
  pub fetches :
      (r : R) (m : Message) (ms : List Message)
      → pending r ≡ m ∷ ms
      → ((o.fetch_message r).0 ≡ inr m)
        × (pending (o.fetch_message r).1 ≡ ms)
        × (committed (o.fetch_message r).1 ≡ committed r)
  pub commits :
      (m : Message) (r : R)
      → ((o.commit_messages m r).0 ≡ none)
        × (pending (o.commit_messages m r).1 ≡ pending r)
        × (committed (o.commit_messages m r).1 ≡ committed r ++ (m ∷ []))

module _ {R E : Type 0} (u : Unicode) (validate : List ℕ → ErrorValue ⊎ SearchEvent)
    (as_error : Option RawError → E) (o : Outside R Message E) where
  -- The reader and the context of `o`, with the service's handler in place of its own.
  abbrev pub service_consumer : Outside (R × (System × Collector)) Message E
  service_consumer = record {
    fetch_message = λ s. let (r, r') = o.fetch_message s.0 in (r, (r', s.1));
    commit_messages = λ m s. let (r, r') = o.commit_messages m s.0 in (r, (r', s.1));
    close = λ s. (o.close s.0, s.1);
    handler = λ m s.
        let (r, w) =
          handler_result as_error s.1
            (handle_raw (service_handler collect u validate m.at) m.payload s.1) in
        (r, (s.0, w));
    ctx_err = λ s. o.ctx_err s.0;
    wait_done = λ s. (o.wait_done s.0, s.1);
    wait_timer = λ d s. (o.wait_timer d s.0, s.1);
    is_rebalance = o.is_rebalance;
    is_context_error = o.is_context_error;
  }

  module _ (cfg : Config) (pending committed : R → List Message)
      (laws : IsReliable o pending committed) where
    -- All that was pending is committed and counted.
    record Drained (ms : List Message) (r : R) (c : Collector)
        (x : Option (RunError Message E) × (R × (System × Collector))) : Type 0 where
      goes_on : x.0 ≡ none
      empty : pending x.1.0 ≡ []
      all : committed x.1.0 ≡ committed r ++ ms
      valid : IsValid x.1.1.0.engine
      counted : messages_counted x.1.1.1 % 2 ^ 64 ≡ (messages_counted c + length ms) % 2 ^ 64

    run_rounds-Drained :
        (ms : List Message) (r : R) (s : System) (c : Collector)
        → pending r ≡ ms
        → IsValid s.engine
        → Drained ms r c (run_rounds service_consumer cfg (length ms) (r, (s, c)))
    unfolding run_rounds
    run_rounds-Drained [] r s c e v = record {
      goes_on = refl;
      empty = e;
      all = sym (append-nil (committed r));
      valid = v;
      counted = omega arith;
    }
    run_rounds-Drained (m ∷ ms) r s c e v =
        let (fetched, left, same) = laws.fetches r m ms e in
        let r₁ = (o.fetch_message r).1 in
        let (s₁, c₁, runs, v₁, outcome) =
          handle_raw-returns_nil collect u validate m.at m.payload s c v in
        let (done, kept, more) = laws.commits m r₁ in
        let r₂ = (o.commit_messages m r₁).1 in
        let ran : service_consumer.handler m (r₁, (s, c)) ≡ (none, (r₁, (s₁, c₁))) =
          rw (runs) refl in
        let once : consume service_consumer cfg (r, (s, c)) ≡ (none, (r₂, (s₁, c₁))) =
          consume_once service_consumer cfg m (r, (s, c)) fetched (ap (λ x. x.0) ran)
            (ap (λ x. (service_consumer.commit_messages m x.1).0) ran ∙ done)
          ∙ ap (λ x. (none, (service_consumer.commit_messages m x.1).1)) ran in
        let rest = run_rounds-Drained ms r₂ s₁ c₁ (kept ∙ left) v₁ in
        rw (once, run_rounds)
          (rw (once) (record {
            goes_on = rest.goes_on;
            empty = rest.empty;
            all =
                rest.all
                ∙ ap (λ l. l ++ ms) (more ∙ ap (λ l. l ++ (m ∷ [])) same)
                ∙ append_assoc (committed r) (m ∷ []) ms;
            valid = rest.valid;
            counted = omega (
              arith,
              rest.counted,
              Outcome-messages_counted u validate m.at m.payload s c s₁ c₁ outcome,
            );
          }))

    -- Over a reader that gives its messages and commits them, and from a valid engine, an enabled
    -- consumer of the service is still running after as many rounds as there are messages, whatever
    -- their payloads: all of them are committed, in their order, each is counted once by the
    -- metrics, modulo 2^64, and the engine is valid.
    pub run-commits_all :
        (r : R) (s : System) (c : Collector)
        → cfg.enabled ≡ true
        → IsValid s.engine
        → let x = run service_consumer cfg true true (length (pending r)) (r, (s, c)) in
          (x.0 ≡ none)
          × (pending x.1.0 ≡ [])
          × (committed x.1.0 ≡ committed r ++ pending r)
          × IsValid x.1.1.0.engine
          × (messages_counted x.1.1.1 % 2 ^ 64 ≡ (messages_counted c + length (pending r)) % 2 ^ 64)
    unfolding run
    run-commits_all r s c on v =
        let d = run_rounds-Drained (pending r) r s c refl v in
        let loops : run service_consumer cfg true true (length (pending r)) (r, (s, c))
            ≡ run_rounds service_consumer cfg (length (pending r)) (r, (s, c)) =
          ground arith in
        rw (loops) (d.goes_on, d.empty, d.all, d.valid, d.counted)
