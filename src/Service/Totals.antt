-- ===== src/Service/Totals.antt =====
-- internal/usecase/ingest over internal/engine/window, as main.go wires them: what the window holds
-- of the messages that the service has taken.
use wb_trial_task.Common.{
  ℕ, ◌≤◌, ◌<◌, ◌≡◌, refl, ◌∙◌, false, Option, none, some, List, [], ◌∷◌, arith, Str, is_empty, ◌⊎◌,
  inl, inr, ℤ, Option-cases, Sum-cases, sym, All,
}
use wb_trial_task.Clock.{Time}
use wb_trial_task.Domain.{SearchEvent}
use wb_trial_task.Window.{new_engine, window_or_default}
use wb_trial_task.Window.Sums.{sum_counts}
use wb_trial_task.Window.Invariant.{IsValid, new_engine-IsValid}
use wb_trial_task.Window.History.{window_count}
use wb_trial_task.Window.Replay.{AddCall, second_of, run_adds, record_calls, last_second, InOrder}
use wb_trial_task.Window.Refinement.{run_adds-window_count}
use wb_trial_task.Normalizer.{Unicode, Service, normalize}
use wb_trial_task.Ingest.{ErrorValue, ingested_or_now, handle_raw}
use wb_trial_task.Ingest.System.{System}
use wb_trial_task.Ingest.Atomicity.{counted_query}
use wb_trial_task.Ingest.Consumed.{service_handler, Outcome, handle_raw-returns_nil}
use wb_trial_task.Metrics.{Collector}
use wb_trial_task.Metrics.Accounting.{Message, collect, run_messages}

abbrev pub prepend : Option AddCall → List AddCall → List AddCall
prepend none calls = calls
prepend (some c) calls = c ∷ calls

-- The seconds of the calls are positive and do not go backwards.
abbrev pub IsChronological : ℕ → List AddCall → Type 0
IsChronological last [] = Unit
IsChronological last (c ∷ calls) =
    (0 < second_of c) × (last ≤ second_of c) × IsChronological (second_of c) calls

module _ (u : Unicode) (validate : List ℕ → ErrorValue ⊎ SearchEvent) where
  -- One count of a query, at the time of the event.
  abbrev call_of : Time → SearchEvent → Str → AddCall
  call_of now evt q = record {
    query = q;
    score = 1;
    ingested_at_ms = ingested_or_now evt.ingested_at_ms now;
    now = now;
  }

  -- What a message is worth to the window: one count, if it is an event that counts.
  abbrev pub accepted_call : Message → System → Option AddCall
  accepted_call m s = elim (validate m.payload) [
    | inl err ↦ none
    | inr evt ↦ elim (counted_query u m.at evt s) [
      | none ↦ none
      | some q ↦ some (call_of m.at evt q)
    ]
  ]

  -- The counts of a run of messages.
  unfoldable pub accepted_calls : List Message → System × Collector → List AddCall
  accepted_calls [] s = []
  accepted_calls (m ∷ messages) s =
      prepend (accepted_call m s.0)
        (elim (handle_raw (service_handler collect u validate m.at) m.payload s) [
          | none ↦ []
          | some (err, s') ↦ accepted_calls messages s'
        ])

  pub run_adds-prepend :
      (now : Time) (payload : List ℕ) (s : System) (c : Collector) (s' : System) (c' : Collector)
      (calls : List AddCall)
      → Outcome collect u validate now payload s c s' c'
      → run_adds (prepend (accepted_call (record { payload = payload; at = now }) s) calls) s.engine
        ≡ run_adds calls s'.engine
  unfolding run_adds
  run_adds-prepend now payload s c s' c' calls (inl (r, e, same, inl (err, bad, is))) =
      rw (bad, run_adds, same) refl
  run_adds-prepend now payload s c s' c' calls (inl (r, e, same, inr (evt, found, out, known))) =
      rw (found, out, run_adds, same) refl
  run_adds-prepend now payload s c s' c' calls (inr (evt, found, (q, counts, adds), logged)) =
      rw (found, run_adds, counts, adds) refl

  -- From a valid engine a run of messages never panics and never gives an error, whatever the
  -- payloads, and leaves the engine exactly as the calls of `Add` do that its messages are worth:
  -- one for every message that is an event with a new id whose query the normalizer and the
  -- evaluator let pass, in their order, and none for any other.
  pub run_messages-run_adds :
      (messages : List Message) (s : System) (c : Collector)
      → IsValid s.engine
      → (s' : System) × (c' : Collector) × (run_messages u validate messages (s, c) ≡ some (s', c'))
        × (run_adds (accepted_calls messages (s, c)) s.engine ≡ some s'.engine)
        × IsValid s'.engine
  unfolding run_messages accepted_calls run_adds
  run_messages-run_adds [] s c v = (s, c, refl, refl, v)
  run_messages-run_adds (m ∷ messages) s c v =
      let (s₁, c₁, runs, v₁, outcome) =
        handle_raw-returns_nil collect u validate m.at m.payload s c v in
      let (s₂, c₂, rest, adds, v₂) = run_messages-run_adds messages s₁ c₁ v₁ in
      let calls = accepted_calls messages (s₁, c₁) in
      (
        s₂,
        c₂,
        rw (runs, run_messages) rest,
        rw (runs, accepted_calls) (run_adds-prepend m.at m.payload s c s₁ c₁ calls outcome ∙ adds),
        v₂,
      )

  -- A count that `Add` does not skip.
  abbrev Counts : AddCall → Type 0
  Counts c = (is_empty c.query ≡ false) × (0 < c.score)

  normalize-full : (s : Service) (raw q : Str) → normalize u s raw ≡ some q → is_empty q ≡ false
  unfolding normalize
  normalize-full s raw q h = ground arith

  counted_query-full :
      (now : Time) (evt : SearchEvent) (s : System) (q : Str)
      → counted_query u now evt s ≡ some q
      → is_empty q ≡ false
  counted_query-full now evt s q h = elim (Option-cases (normalize u s.normalizer evt.query_raw)) [
    | inl bad ↦ absurd (ground arith)
    | inr (p, found) ↦ ground (arith, normalize-full s.normalizer evt.query_raw p found)
  ]

  prepend-Counts :
      (m : Message) (s : System) (calls : List AddCall)
      → All Counts calls
      → All Counts (prepend (accepted_call m s) calls)
  prepend-Counts m s calls h = elim (Sum-cases (validate m.payload)) [
    | inl (err, bad) ↦ rw (bad, All) h
    | inr (evt, found) ↦ elim (Option-cases (counted_query u m.at evt s)) [
      | inl out ↦ rw (found, out, All) h
      | inr (q, counts) ↦
          rw (found, counts, All) ((counted_query-full m.at evt s q counts, omega arith), h)
    ]
  ]

  accepted_calls-Counts :
      (messages : List Message) (s : System × Collector) → All Counts (accepted_calls messages s)
  unfolding accepted_calls
  accepted_calls-Counts [] s = tt
  accepted_calls-Counts (m ∷ messages) s =
      elim (Option-cases (handle_raw (service_handler collect u validate m.at) m.payload s)) [
        | inl panics ↦ rw (panics, accepted_calls) (prepend-Counts m s.0 [] tt)
        | inr ((err, s'), runs) ↦
            rw (runs, accepted_calls)
              (prepend-Counts m s.0 (accepted_calls messages s')
                (accepted_calls-Counts messages s'))
      ]

  IsChronological-InOrder :
      (last : ℕ) (calls : List AddCall)
      → All Counts calls
      → IsChronological last calls
      → InOrder last calls
  IsChronological-InOrder last [] a h = tt
  IsChronological-InOrder last (c ∷ calls) ((full, p), a) (ps, le, h) =
      (full, p, ps, le, IsChronological-InOrder (second_of c) calls a h)

  -- From a service with a new engine, and where the seconds of the counted events are positive and
  -- do not go backwards, a run of messages returns with a valid engine, in which the count of each
  -- query is the number of its counted events in the last `window_seconds` seconds, back from the
  -- last counted one.
  pub run_messages-window_count :
      (messages : List Message) (w : ℤ) (s : System) (c : Collector)
      → s.engine ≡ new_engine w
      → IsChronological 0 (accepted_calls messages (s, c))
      → (s' : System) × (c' : Collector) × (run_messages u validate messages (s, c) ≡ some (s', c'))
        × IsValid s'.engine
        × ((q : Str)
            → let calls = accepted_calls messages (s, c) in
              sum_counts q s'.engine.buckets
              ≡ window_count q (window_or_default w) (last_second calls 0) (record_calls calls []))
  run_messages-window_count messages w s c fresh order =
      let calls = accepted_calls messages (s, c) in
      let valid : IsValid s.engine = rw fresh (new_engine-IsValid w) in
      let (s', c', runs, adds, v) = run_messages-run_adds messages s c valid in
      let (e, again, counts) =
        run_adds-window_count w calls
          (IsChronological-InOrder 0 calls (accepted_calls-Counts messages (s, c)) order) in
      let adds' = rw fresh at adds in
      let same : e ≡ s'.engine = cc in
      (s', c', runs, v, λ q. sym (v.balanced q) ∙ (rw same at (counts q)))
