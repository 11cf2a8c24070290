-- ===== src/Window/Replay.antt =====
-- Runs of `Add` whose event seconds do not go backwards: the totals are exactly the counts of the
-- sliding window, the specification of the engine.
use wb_trial_task.Common.{
  All-imp, ℕ, ◌+◌, ◌%◌, ◌≤◌, ◌<◌, ◌≡◌, refl, ◌∙◌, false, Option, none, some, List, [], ◌∷◌, arith,
  Str, length, get_elem?, inl, inr, get_elem?-lt_length, is_empty, ℤ,
}
use wb_trial_task.Clock.{Time}
use wb_trial_task.Window.{Bucket, Engine, add, event_second}
use wb_trial_task.Window.Ring.{Stepped}
use wb_trial_task.Window.Invariant.{IsValid}
use wb_trial_task.Window.History.{Hit, epoch_at, BucketTracks, HitTracks, Tracks, same_second}
use wb_trial_task.Window.Sliding.{evicted-BucketTracks, hit_bucket-BucketTracks}

-- One call of `Add`, with the reading of the clock that it makes.
pub record AddCall : Type 0 where
  pub query : Str
  pub score : ℕ
  pub ingested_at_ms : ℤ
  pub now : Time

abbrev pub second_of : AddCall → ℕ
second_of c = event_second c.ingested_at_ms c.now

unfoldable pub run_adds : List AddCall → Engine → Option Engine
run_adds [] e = some e
run_adds (c ∷ calls) e = elim (add c.query c.score c.ingested_at_ms c.now e) [
  | none ↦ none
  | some e' ↦ run_adds calls e'
]

-- The calls as a history, most recent first, on top of an older one.
abbrev pub record_calls : List AddCall → List Hit → List Hit
record_calls [] h = h
record_calls (c ∷ calls) h =
    record_calls calls (record { second = second_of c; query = c.query; score = c.score } ∷ h)

-- The second of the last call, or an older one.
abbrev pub last_second : List AddCall → ℕ → ℕ
last_second [] last = last
last_second (c ∷ calls) last = last_second calls (second_of c)

-- Every call has a query and a positive score, and the seconds do not go backwards.
abbrev pub InOrder : ℕ → List AddCall → Type 0
InOrder last [] = Unit
InOrder last (c ∷ calls) =
    (is_empty c.query ≡ false)
    × (0 < c.score)
    × (0 < second_of c)
    × (last ≤ second_of c)
    × InOrder (second_of c) calls

module _ (last sec : ℕ) (q : Str) (score : ℕ) (h : List Hit) (e e' : Engine) (pos_sec : 0 < sec)
    (in_order : last ≤ sec) (valid : IsValid e) (valid' : IsValid e')
    (st : Stepped sec q score e e') (t : Tracks e.window_seconds last h e.buckets) where
  step_buckets :
      (i : ℕ) (b' : Bucket)
      → get_elem? e'.buckets i ≡ some b'
      → BucketTracks e.window_seconds sec
          (record { second = sec; query = q; score = score } ∷ h)
          i
          b'
  step_buckets i b' g =
      let (b, old, cases) = st.bucket i b' g in
      elim cases [
        | inl (here, is) ↦
            rw (is, here)
              (hit_bucket-BucketTracks e.window_seconds last sec q score h e.buckets
                valid.window_pos pos_sec in_order t.hits b (rw here at old)
                (t.buckets (sec % e.window_seconds) b (rw here at old)))
        | inr (other, is) ↦ rw is (
            evicted-BucketTracks e.window_seconds last sec q score h e.buckets valid.window_pos
              pos_sec in_order t.hits i b other (t.buckets i b old))
      ]

  epoch_stays :
      (x : Hit)
      → HitTracks e.window_seconds last e.buckets x
      → (b' : Bucket) → get_elem? e'.buckets (x.second % e.window_seconds) ≡ some b'
      → sec < x.second + e.window_seconds
      → b'.epoch_second ≡ x.second
  epoch_stays x (p, le, at) b' g within =
      let (b, old, cases) = st.bucket (x.second % e.window_seconds) b' g in
      elim cases [
        | inl (here, is) ↦
            let same : x.second ≡ sec =
              same_second e.window_seconds x.second sec valid.window_pos (omega arith) within
                here in
            ground arith
        | inr (other, is) ↦ ground (arith, at (omega arith))
      ]

  epoch_at_of :
      (i : ℕ) (b' : Bucket)
      → get_elem? e'.buckets i ≡ some b'
      → epoch_at i e'.buckets ≡ b'.epoch_second
  epoch_at_of i b' g = ground arith

  in_ring : (s : ℕ) → s % e.window_seconds < length e'.buckets
  in_ring s = grind (arith, valid.window_pos, valid'.ring, st.window)

  step_hit :
      (x : Hit)
      → HitTracks e.window_seconds last e.buckets x
      → HitTracks e.window_seconds sec e'.buckets x
  step_hit x k = (
    k.0,
    omega (arith, k.1),
    λ within.
        let (b', g) =
          get_elem?-lt_length e'.buckets (x.second % e.window_seconds) (in_ring x.second) in
        epoch_at_of (x.second % e.window_seconds) b' g ∙ epoch_stays x k b' g within,
  )

  new_hit :
      (b' : Bucket)
      → get_elem? e'.buckets (sec % e.window_seconds) ≡ some b'
      → b'.epoch_second ≡ sec
  new_hit b' g =
      let (b, old, cases) = st.bucket (sec % e.window_seconds) b' g in
      elim cases [ inl (here, is) ↦ ground arith | inr (other, is) ↦ absurd (other refl) ]

  pub Stepped-Tracks :
      Tracks e.window_seconds sec (record { second = sec; query = q; score = score } ∷ h) e'.buckets
  Stepped-Tracks = record {
    buckets = step_buckets;
    hits = (
      (
        pos_sec,
        omega arith,
        λ within.
            let (b', g) = get_elem?-lt_length e'.buckets (sec % e.window_seconds) (in_ring sec) in
            epoch_at_of (sec % e.window_seconds) b' g ∙ new_hit b' g,
      ),
      All-imp (HitTracks e.window_seconds last e.buckets)
          (HitTracks e.window_seconds sec e'.buckets) step_hit h t.hits,
    );
  }
