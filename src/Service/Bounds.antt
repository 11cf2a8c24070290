-- ===== src/Service/Bounds.antt =====
-- How large the counts of the window can be, which ring_buffer.go keeps as `int64` and `float64`:
-- `float64` holds the whole numbers up to 2^53.
use wb_trial_task.Common.{
  ℕ, ◌+◌, ◌≤◌, ◌≡◌, some, List, [], ◌∷◌, arith, Str, ◌⊎◌, inl, inr, Sum-cases, Option-cases, length,
}
use wb_trial_task.Common.Dict.{get}
use wb_trial_task.Domain.{SearchEvent}
use wb_trial_task.Window.Invariant.{IsValid}
use wb_trial_task.Window.Replay.{AddCall}
use wb_trial_task.Window.Bounds.{sum_scores, run_adds-le}
use wb_trial_task.Normalizer.{Unicode}
use wb_trial_task.Ingest.{ErrorValue, handle_raw}
use wb_trial_task.Ingest.System.{System}
use wb_trial_task.Ingest.Atomicity.{counted_query}
use wb_trial_task.Ingest.Consumed.{service_handler}
use wb_trial_task.Metrics.{Collector}
use wb_trial_task.Metrics.Accounting.{Message, collect, run_messages}
use wb_trial_task.Service.Totals.{accepted_call, accepted_calls, prepend, run_messages-run_adds}

module _ (u : Unicode) (validate : List ℕ → ErrorValue ⊎ SearchEvent) where
  sum_scores-prepend :
      (m : Message) (s : System) (calls : List AddCall)
      → sum_scores (prepend (accepted_call u validate m s) calls) ≤ sum_scores calls + 1
  sum_scores-prepend m s calls = elim (Sum-cases (validate m.payload)) [
    | inl (err, bad) ↦ rw (bad, sum_scores) (omega arith)
    | inr (evt, found) ↦ elim (Option-cases (counted_query u m.at evt s)) [
      | inl out ↦ rw (found, out, sum_scores) (omega arith)
      | inr (q, counts) ↦ rw (found, counts, sum_scores) (omega arith)
    ]
  ]

  sum_scores-accepted_calls-le :
      (messages : List Message) (s : System × Collector)
      → sum_scores (accepted_calls u validate messages s) ≤ length messages
  unfolding accepted_calls
  sum_scores-accepted_calls-le [] s = omega arith
  sum_scores-accepted_calls-le (m ∷ messages) s =
      elim (Option-cases (handle_raw (service_handler collect u validate m.at) m.payload s)) [
        | inl panics ↦ rw (panics, accepted_calls) (omega (arith, sum_scores-prepend m s.0 []))
        | inr ((err, s'), runs) ↦
            rw (runs, accepted_calls)
              (omega (
                arith,
                sum_scores-prepend m s.0 (accepted_calls u validate messages s'),
                sum_scores-accepted_calls-le messages s',
              ))
      ]

  -- A run of messages from a valid engine returns, and raises the total of no query by more than
  -- the number of the messages, whatever their times and their order.
  pub run_messages-totals_le :
      (q : Str) (messages : List Message) (s : System) (c : Collector)
      → IsValid s.engine
      → (s' : System) × (c' : Collector) × (run_messages u validate messages (s, c) ≡ some (s', c'))
        × (get q s'.engine.totals ≤ get q s.engine.totals + length messages)
  run_messages-totals_le q messages s c v =
      let (s', c', runs, adds, v') = run_messages-run_adds u validate messages s c v in
      (
        s',
        c',
        runs,
        omega (
          arith,
          run_adds-le q (accepted_calls u validate messages (s, c)) s.engine s'.engine adds,
          sum_scores-accepted_calls-le messages (s, c),
        ),
      )
