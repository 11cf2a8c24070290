-- ===== src/Metrics/Accounting.antt =====
-- The metrics of the whole service, as main.go wires them: every message shows up in them once.
use wb_trial_task.Common.{
  ℕ, ◌+◌, ◌%◌, ◌^◌, ◌≡◌, refl, Option, none, some, List, [], ◌∷◌, arith, Str, pos, ◌⊎◌, inl, inr,
  length,
}
use wb_trial_task.Common.Dict.{Dict, get, lookup, insert}
use wb_trial_task.Clock.{Time}
use wb_trial_task.Domain.{SearchEvent, RejectReason, reason_text}
use wb_trial_task.Window.Invariant.{IsValid}
use wb_trial_task.Normalizer.{Unicode}
use wb_trial_task.Ingest.{ErrorValue, handle_raw}
use wb_trial_task.Ingest.System.{System}
use wb_trial_task.Ingest.Consumed.{
  Report, counted, lag, refused, service_handler, Outcome, handle_raw-returns_nil,
}
use wb_trial_task.Metrics.Prometheus.{
  Collector, inc_ingest, observe_ingest_lag_ms, report_reject, reason_or_unknown,
}

-- What a report does to the collector.
abbrev pub collect : Report → Collector → Collector
collect counted c = inc_ingest c
collect (lag ms) c = observe_ingest_lag_ms (pos ms) c
collect (refused reason) c = report_reject reason c

abbrev pub sum_values : Dict ℕ → ℕ
sum_values [] = 0
sum_values ((k, v) ∷ d) = v + sum_values d

-- The messages that the collector has counted: those that became events, and those dropped.
abbrev pub messages_counted : Collector → ℕ
messages_counted c = c.ingest_total + sum_values c.dropped

sum_values-insert :
    (k : Str) (v : ℕ) (d : Dict ℕ) → sum_values (insert k v d) + get k d ≡ sum_values d + v
unfolding insert lookup
sum_values-insert k v [] = omega arith
sum_values-insert k v ((j, w) ∷ d) = ground (arith, sum_values-insert k v d)

collect_counted :
    (c : Collector)
    → messages_counted (collect counted c) % 2 ^ 64 ≡ (messages_counted c + 1) % 2 ^ 64
unfolding inc_ingest
collect_counted c = omega arith

collect_lag : (ms : ℕ) (c : Collector) → messages_counted (collect (lag ms) c) ≡ messages_counted c
unfolding observe_ingest_lag_ms
collect_lag ms c = refl

collect_refused :
    (reason : RejectReason) (c : Collector)
    → messages_counted (collect (refused reason) c) % 2 ^ 64 ≡ (messages_counted c + 1) % 2 ^ 64
unfolding report_reject
collect_refused reason c =
    let key = reason_or_unknown (reason_text reason) in
    omega (arith, sum_values-insert key ((get key c.dropped + 1) % 2 ^ 64) c.dropped)

-- A message, with the reading of the clock while it is handled.
pub record Message : Type 0 where
  pub payload : List ℕ
  pub at : Time

module _ (u : Unicode) (validate : List ℕ → ErrorValue ⊎ SearchEvent) where
  -- The state after messages that `HandleRaw` took one after the other; none is a panic or an
  -- error.
  unfoldable pub run_messages : List Message → System × Collector → Option (System × Collector)
  run_messages [] s = some s
  run_messages (m ∷ messages) s =
      elim (handle_raw (service_handler collect u validate m.at) m.payload s) [
        | none ↦ none
        | some (some err, s') ↦ none
        | some (none, s') ↦ run_messages messages s'
      ]

  pub Outcome-messages_counted :
      (now : Time) (payload : List ℕ) (s : System) (c : Collector) (s' : System) (c' : Collector)
      → Outcome collect u validate now payload s c s' c'
      → messages_counted c' % 2 ^ 64 ≡ (messages_counted c + 1) % 2 ^ 64
  Outcome-messages_counted now payload s c s' c' (inl (r, e, same, origin)) =
      rw e (collect_refused r c)
  Outcome-messages_counted now payload s c s' c' (inr (evt, found, settled, inl e)) =
      rw e (collect_counted c)
  Outcome-messages_counted now payload s c s' c' (inr (evt, found, settled, inr (ms, e))) =
      rw (e, collect_lag ms (collect counted c)) (collect_counted c)

  -- From a valid engine, a run of messages never panics and never gives an error, whatever the
  -- payloads and the validator, and every message is counted once by the metrics, as an event or
  -- under the reason for which it was dropped: their total grows by the number of messages, modulo
  -- the 2^64 of the counters.
  pub run_messages-counts_all :
      (messages : List Message) (s : System) (c : Collector)
      → IsValid s.engine
      → (s' : System) × (c' : Collector) × (run_messages messages (s, c) ≡ some (s', c'))
        × IsValid s'.engine
        × (messages_counted c' % 2 ^ 64 ≡ (messages_counted c + length messages) % 2 ^ 64)
  unfolding run_messages
  run_messages-counts_all [] s c v = (s, c, refl, v, omega arith)
  run_messages-counts_all (m ∷ messages) s c v =
      let (s₁, c₁, runs, v₁, outcome) =
        handle_raw-returns_nil collect u validate m.at m.payload s c v in
      let (s₂, c₂, rest, v₂, total) = run_messages-counts_all messages s₁ c₁ v₁ in
      (
        s₂,
        c₂,
        rw (runs, run_messages) rest,
        v₂,
        omega (arith, total, Outcome-messages_counted m.at m.payload s c s₁ c₁ outcome),
      )
