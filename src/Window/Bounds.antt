-- ===== src/Window/Bounds.antt =====
-- How far the counts of the engine can grow: ring_buffer.go keeps them as `int64` and `float64`.
use wb_trial_task.Common.{
  ℕ, ◌+◌, ◌≤◌, ◌≡◌, ◌||◌, some, List, [], ◌∷◌, arith, leb, Str, ℤ, is_empty, Bool-cases,
  Option-cases, inl, inr, get_elem?,
}
use wb_trial_task.Common.Dict.{Dict, get}
use wb_trial_task.Clock.{Time}
use wb_trial_task.Window.{
  Bucket, Engine, subtract_count, remove_counts, evict_bucket, evict_expired_buckets, claim_bucket,
  record_query, bucket_index, add_at, add, rebuild, event_second,
}
use wb_trial_task.Window.Sums.{get-subtract_count, get-bump}
use wb_trial_task.Window.Replay.{AddCall, run_adds}

get-remove_counts-le :
    (j : Str) (counts totals : Dict ℕ) → get j (remove_counts counts totals) ≤ get j totals
unfolding remove_counts
get-remove_counts-le j [] totals = omega arith
get-remove_counts-le j ((q, cnt) ∷ counts) totals = ground (
  arith,
  get-remove_counts-le j counts (subtract_count q cnt totals),
  get-subtract_count q j cnt totals,
)

get-evict_expired_buckets-le :
    (j : Str) (max_age cur : ℕ) (bs : List Bucket) (totals : Dict ℕ)
    → get j (evict_expired_buckets max_age cur bs totals).1 ≤ get j totals
unfolding evict_expired_buckets evict_bucket
get-evict_expired_buckets-le j max_age cur [] totals = omega arith
get-evict_expired_buckets-le j max_age cur (b ∷ bs) totals = ground (
  arith,
  get-evict_expired_buckets-le j max_age cur bs (evict_bucket max_age cur b totals).1,
  get-remove_counts-le j b.counts totals,
)

record_query-le :
    (j : Str) (idx sec : ℕ) (q : Str) (score : ℕ) (bs bs' : List Bucket) (totals totals' : Dict ℕ)
    → record_query idx sec q score bs totals ≡ some (bs', totals')
    → get j totals' ≤ get j totals + score
unfolding record_query claim_bucket
record_query-le j idx sec q score bs bs' totals totals' h = elim (Option-cases (get_elem? bs idx)) [
  | inl out ↦ absurd (ground arith)
  | inr (b, found) ↦ ground (
    arith,
    found,
    get-bump q j score (claim_bucket sec b totals).1,
    get-remove_counts-le j b.counts totals,
  )
]

add_at-le :
    (j : Str) (sec : ℕ) (q : Str) (score : ℕ) (e e' : Engine)
    → add_at sec q score e ≡ some e'
    → get j e'.totals ≤ get j e.totals + score
unfolding add_at
add_at-le j sec q score e e' h =
    let (buckets, totals) = evict_expired_buckets e.window_seconds sec e.buckets e.totals in
    elim (Option-cases (record_query (bucket_index sec e) sec q score buckets totals)) [
      | inl out ↦ absurd (ground arith)
      | inr ((bs', totals'), found) ↦ ground (
        arith,
        found,
        record_query-le j (bucket_index sec e) sec q score buckets bs' totals totals' found,
        get-evict_expired_buckets-le j e.window_seconds sec e.buckets e.totals,
      )
    ]

-- A call of `Add` raises no total by more than its score.
pub add-le :
    (j q : Str) (score : ℕ) (ms : ℤ) (now : Time) (e e' : Engine)
    → add q score ms now e ≡ some e'
    → get j e'.totals ≤ get j e.totals + score
unfolding add rebuild
add-le j q score ms now e e' h = elim (Bool-cases (is_empty q || leb score 0)) [
  | inl skip ↦ ground arith
  | inr counts ↦ elim (Option-cases (add_at (event_second ms now) q score e)) [
    | inl out ↦ absurd (ground arith)
    | inr (e₁, found) ↦ ground (arith, add_at-le j (event_second ms now) q score e e₁ found)
  ]
]

-- The scores of a run, together.
abbrev pub sum_scores : List AddCall → ℕ
sum_scores [] = 0
sum_scores (c ∷ calls) = c.score + sum_scores calls

-- A run of `Add` raises no total by more than the sum of its scores.
pub run_adds-le :
    (j : Str) (calls : List AddCall) (e e' : Engine)
    → run_adds calls e ≡ some e'
    → get j e'.totals ≤ get j e.totals + sum_scores calls
unfolding run_adds
run_adds-le j [] e e' h = ground arith
run_adds-le j (c ∷ calls) e e' h =
    elim (Option-cases (add c.query c.score c.ingested_at_ms c.now e)) [
      | inl out ↦ absurd (ground arith)
      | inr (e₁, found) ↦ ground (
        arith,
        found,
        add-le j c.query c.score c.ingested_at_ms c.now e e₁ found,
        run_adds-le j calls e₁ e',
      )
    ]
