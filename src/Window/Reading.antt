-- ===== src/Window/Reading.antt =====
-- The cache of the snapshot has no influence on what `Add` does to the counts.
use wb_trial_task.Common.{
  ℕ, ◌≡◌, refl, sym, ap, ◌∙◌, ◌||◌, true, if◌then◌else◌, some, List, [], ◌∷◌, arith, leb, Str, ℤ,
  is_empty, Bool-cases, Option-cases, inl, inr,
}
use wb_trial_task.Clock.{Time}
use wb_trial_task.Window.{
  Engine, evict_expired_buckets, record_query, bucket_index, add_at, add, should_rebuild, rebuild,
  refresh, event_second,
}
use wb_trial_task.Window.Top.{refresh-same}
use wb_trial_task.Window.Replay.{AddCall, run_adds}

-- The ring, the totals and the size of the window agree.
pub record SameCounts (e e' : Engine) : Type 0 where
  pub buckets : e'.buckets ≡ e.buckets
  pub totals : e'.totals ≡ e.totals
  pub window : e'.window_seconds ≡ e.window_seconds

pub SameCounts-refl : (e : Engine) → SameCounts e e
SameCounts-refl e = record { buckets = refl; totals = refl; window = refl }

pub SameCounts-trans : (a b c : Engine) → SameCounts a b → SameCounts b c → SameCounts a c
SameCounts-trans a b c h k = record {
  buckets = k.buckets ∙ h.buckets;
  totals = k.totals ∙ h.totals;
  window = k.window ∙ h.window;
}

pub refresh-SameCounts : (now : Time) (e : Engine) → SameCounts e (refresh now e)
refresh-SameCounts now e =
    let (buckets, totals, window) = refresh-same now e in
    record { buckets = buckets; totals = totals; window = window }

maybe_rebuild-SameCounts :
    (now : Time) (e : Engine) → SameCounts e (if should_rebuild now e then rebuild now e else e)
unfolding rebuild
maybe_rebuild-SameCounts now e = elim (Bool-cases (should_rebuild now e)) [
  | inl again ↦ rw (again) (record { buckets = refl; totals = refl; window = refl })
  | inr later ↦ rw (later) (SameCounts-refl e)
]

add_at-SameCounts :
    (sec : ℕ) (q : Str) (score : ℕ) (e d e' : Engine)
    → SameCounts e d
    → add_at sec q score e ≡ some e'
    → (d' : Engine) × (add_at sec q score d ≡ some d') × SameCounts e' d'
unfolding add_at
add_at-SameCounts sec q score e d e' same h =
    let (buckets, totals) = evict_expired_buckets e.window_seconds sec e.buckets e.totals in
    elim (Option-cases (record_query (bucket_index sec e) sec q score buckets totals)) [
      | inl out ↦ absurd (ground arith)
      | inr ((bs, ts), found) ↦ (
        record d { window_seconds = e.window_seconds; buckets = bs; totals = ts; dirty = true },
        rw (same.buckets, same.totals, same.window, add_at, found)
            (ap
              (λ w. some (record d { window_seconds = w; buckets = bs; totals = ts; dirty = true }))
              same.window),
        record { buckets = ground arith; totals = ground arith; window = ground arith },
      )
    ]

add-SameCounts :
    (q : Str) (score : ℕ) (ms : ℤ) (now : Time) (e d e' : Engine)
    → SameCounts e d
    → add q score ms now e ≡ some e'
    → (d' : Engine) × (add q score ms now d ≡ some d') × SameCounts e' d'
unfolding add
add-SameCounts q score ms now e d e' same h = elim (Bool-cases (is_empty q || leb score 0)) [
  | inl skip ↦ let kept : e ≡ e' = ground arith in (d, rw (skip) refl, rw (sym kept) same)
  | inr counts ↦ elim (Option-cases (add_at (event_second ms now) q score e)) [
    | inl out ↦ absurd (ground arith)
    | inr (e₁, found) ↦
        let (d₁, again, same₁) =
          add_at-SameCounts (event_second ms now) q score e d e₁ same found in
        let rebuilt : (if should_rebuild now e₁ then rebuild now e₁ else e₁) ≡ e' = ground arith in
        let left = maybe_rebuild-SameCounts now e₁ in
        (
          if should_rebuild now d₁ then rebuild now d₁ else d₁,
          rw (counts, again) refl,
          rw (sym rebuilt) (
              SameCounts-trans _ e₁ _
                (record {
                  buckets = sym left.buckets;
                  totals = sym left.totals;
                  window = sym left.window;
                })
                (SameCounts-trans e₁ d₁ _ same₁ (maybe_rebuild-SameCounts now d₁))),
        )
  ]
]

-- The calls of a run do to the counts what they do from an engine with another cache.
pub run_adds-SameCounts :
    (calls : List AddCall) (e d e' : Engine)
    → SameCounts e d
    → run_adds calls e ≡ some e'
    → (d' : Engine) × (run_adds calls d ≡ some d') × SameCounts e' d'
unfolding run_adds
run_adds-SameCounts [] e d e' same h =
    let kept : e ≡ e' = ground arith in (d, refl, rw (sym kept) same)
run_adds-SameCounts (c ∷ calls) e d e' same h =
    elim (Option-cases (add c.query c.score c.ingested_at_ms c.now e)) [
      | inl out ↦ absurd (ground arith)
      | inr (e₁, found) ↦
          let (d₁, again, same₁) =
            add-SameCounts c.query c.score c.ingested_at_ms c.now e d e₁ same found in
          let (d', rest, same') =
            run_adds-SameCounts calls e₁ d₁ e' same₁ (rw (found, run_adds) at h) in
          (d', rw (again, run_adds) rest, same')
    ]
