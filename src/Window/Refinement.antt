-- ===== src/Window/Refinement.antt =====
-- The refinement: over a run of `Add` in order of the events' seconds, the engine holds exactly
-- the counts of the sliding window.
use wb_trial_task.Common.{
  ℕ, zero, suc, ◌<◌, ◌≡◌, refl, ◌∙◌, false, some, List, [], ◌∷◌, arith, leb, Str, get_elem?,
  replicate, Bool-cases, inl, inr, is_empty, ℤ, ◌||◌,
}
use wb_trial_task.Common.Dict.{get, lookup}
use wb_trial_task.Clock.{Time}
use wb_trial_task.Window.{
  Bucket, Engine, empty_bucket, add, event_second, should_rebuild, rebuild, new_engine,
  window_or_default,
}
use wb_trial_task.Window.Ring.{Stepped, add_at-Stepped}
use wb_trial_task.Window.Invariant.{IsValid, add_at-IsValid, rebuild-IsValid, new_engine-IsValid}
use wb_trial_task.Window.History.{Hit, window_count, Tracks}
use wb_trial_task.Window.Sliding.{sum_counts-window}
use wb_trial_task.Window.Replay.{
  AddCall, second_of, run_adds, record_calls, last_second, InOrder, Stepped-Tracks,
}

-- What `Add` does for an event that counts: the step of `add_at`, and perhaps a new cache.
record Counted (q : Str) (score : ℕ) (ms : ℤ) (now : Time) (e e' : Engine) : Type 0 where
  runs : add q score ms now e ≡ some e'
  valid : IsValid e'
  window : e'.window_seconds ≡ e.window_seconds
  stepped : Stepped (event_second ms now) q score e e'

add-Counted :
    (q : Str) (score : ℕ) (ms : ℤ) (now : Time) (e : Engine)
    → is_empty q ≡ false
    → 0 < score
    → IsValid e
    → (e' : Engine) × Counted q score ms now e e'
unfolding add rebuild
add-Counted q score ms now e ne p v =
    let (e₁, a) = add_at-IsValid (event_second ms now) q score e p v in
    let st = add_at-Stepped (event_second ms now) q score e e₁ a.runs in
    let go : (is_empty q || leb score 0) ≡ false = ground arith in
    elim (Bool-cases (should_rebuild now e₁)) [
      | inl again ↦ (
        rebuild now e₁,
        record {
          runs = rw (go, a.runs, again) refl;
          valid = rebuild-IsValid now e₁ a.valid;
          window = st.window;
          stepped = record { window = st.window; bucket = st.bucket };
        },
      )
      | inr later ↦ (
        e₁,
        record {
          runs = rw (go, a.runs, later) refl;
          valid = a.valid;
          window = st.window;
          stepped = st;
        },
      )
    ]

-- The engine after a run: it returns, is valid, and tracks the history of the calls.
record Replayed (calls : List AddCall) (last : ℕ) (h : List Hit) (e e' : Engine) : Type 0 where
  runs : run_adds calls e ≡ some e'
  valid : IsValid e'
  window : e'.window_seconds ≡ e.window_seconds
  tracks : Tracks e.window_seconds (last_second calls last) (record_calls calls h) e'.buckets

run_adds-Replayed :
    (calls : List AddCall) (last : ℕ) (h : List Hit) (e : Engine)
    → InOrder last calls
    → IsValid e
    → Tracks e.window_seconds last h e.buckets
    → (e' : Engine) × Replayed calls last h e e'
unfolding run_adds
run_adds-Replayed [] last h e o v t =
    (e, record { runs = refl; valid = v; window = refl; tracks = t })
run_adds-Replayed (c ∷ calls) last h e (ne, p, ps, le, o) v t =
    let (e₁, k) = add-Counted c.query c.score c.ingested_at_ms c.now e ne p v in
    let t₁ = Stepped-Tracks last (second_of c) c.query c.score h e e₁ ps le v k.valid k.stepped t in
    let (e₂, r) =
      run_adds-Replayed calls (second_of c)
        (record { second = second_of c; query = c.query; score = c.score } ∷ h) e₁ o k.valid
        (rw k.window t₁) in
    (
      e₂,
      record {
        runs = rw (k.runs, run_adds) r.runs;
        valid = r.valid;
        window = r.window ∙ k.window;
        tracks = rw k.window at r.tracks;
      },
    )

Tracks-new_engine : (w : ℤ) → Tracks (new_engine w).window_seconds 0 [] (new_engine w).buckets
unfolding new_engine
Tracks-new_engine w = record {
  buckets = λ i b g.
      rw (all_empty (window_or_default w) i b g)
        (record { counts = λ q. unfold lookup in refl; placed = inl refl; live = inl refl });
  hits = tt;
}
  where
    all_empty :
        (n i : ℕ) (b : Bucket) → get_elem? (replicate n empty_bucket) i ≡ some b → b ≡ empty_bucket
    all_empty zero i b g = cc
    all_empty (suc n) zero b g = ground arith
    all_empty (suc n) (suc i) b g = all_empty n i b g

-- From a new engine, any run of `Add` with a query and a positive score each, whose event seconds
-- are positive and do not go backwards, returns an engine in which the total of every query is the
-- sum of its scores over the calls of the last `window_seconds` seconds, counted back from the
-- second of the last call.
pub run_adds-window_count :
    (w : ℤ) (calls : List AddCall)
    → InOrder 0 calls
    → (e' : Engine) × (run_adds calls (new_engine w) ≡ some e')
      × ((q : Str)
          → get q e'.totals
            ≡ window_count q (window_or_default w) (last_second calls 0) (record_calls calls []))
unfolding new_engine
run_adds-window_count w calls o =
    let (e', r) =
      run_adds-Replayed calls 0 [] (new_engine w) o (new_engine-IsValid w) (Tracks-new_engine w) in
    (
      e',
      r.runs,
      λ q.
          r.valid.balanced q
          ∙ sum_counts-window q (window_or_default w) (last_second calls 0) (record_calls calls [])
              e'.buckets r.tracks,
    )
