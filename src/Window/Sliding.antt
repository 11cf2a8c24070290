-- ===== src/Window/Sliding.antt =====
-- The window engine against its history: the totals are the sums over the sliding window.
use wb_trial_task.Common.{
  All-imp, ℕ, ◌+◌, ◌%◌, ◌≤◌, ◌<◌, ◌≡◌, refl, ◌≢◌, ◌∙◌, some, List, [], ◌∷◌, arith, ltb, leb, ◌==◌,
  if◌then◌else◌, Str, get_elem?, Bool-cases, inl, inr, All,
}
use wb_trial_task.Common.Dict.{lookup, insert}
use wb_trial_task.Window.{Bucket}
use wb_trial_task.Window.Sums.{sum_counts, get-bump}
use wb_trial_task.Window.Ring.{evicted, hit_bucket}
use wb_trial_task.Window.History.{
  Hit, window_count, epoch_at, BucketTracks, HitTracks, Tracks, cell_count_zero, holders,
  holders_zero, holders_one, sum_cells, sum_counts-eq-sum_cells, sum_cells-nil, sum_cells-cons,
}

-- The ring that tracks a history holds each event of the window in exactly one bucket, and no
-- other.
holders-window :
    (window last : ℕ) (h : List Hit) (bs : List Bucket)
    → ((i : ℕ) (b : Bucket) → get_elem? bs i ≡ some b → BucketTracks window last h i b)
    → (x : Hit) → HitTracks window last bs x
    → holders x.second bs ≡ (if ltb last (x.second + window) then 1 else 0)
holders-window window last h bs t x (p, le, at) = elim (Bool-cases (ltb last (x.second + window))) [
  | inl within ↦ rw within (
      holders_one x.second (x.second % window) bs p (λ i b g e. ground (arith, (t i b g).placed))
        (at (ground arith)))
  | inr out ↦ rw out (holders_zero x.second bs (λ i b g e. ground (arith, (t i b g).live)))
]

sum_cells-window :
    (q : Str) (window last : ℕ) (h g : List Hit) (bs : List Bucket)
    → ((i : ℕ) (b : Bucket) → get_elem? bs i ≡ some b → BucketTracks window last g i b)
    → All (HitTracks window last bs) h
    → sum_cells q bs h ≡ window_count q window last h
sum_cells-window q window last [] g bs t a = sum_cells-nil q bs
sum_cells-window q window last (x ∷ h) g bs t a = ground (
  arith,
  sum_cells-cons q bs x h,
  holders-window window last g bs t x a.0,
  sum_cells-window q window last h g bs t a.1,
)

pub sum_counts-window :
    (q : Str) (window last : ℕ) (h : List Hit) (bs : List Bucket)
    → Tracks window last h bs
    → sum_counts q bs ≡ window_count q window last h
sum_counts-window q window last h bs t =
    sum_counts-eq-sum_cells q bs h (λ i b g. (t.buckets i b g).counts q)
    ∙ sum_cells-window q window last h h bs t.buckets t.hits

module _ (window last sec : ℕ) (q : Str) (score : ℕ) (h : List Hit) (bs : List Bucket)
    (pos_window : 0 < window) (pos_sec : 0 < sec) (in_order : last ≤ sec)
    (hits : All (HitTracks window last bs) h) where
  abbrev pub hit : Hit
  hit = record { second = sec; query = q; score = score }

  -- A bucket of another place: eviction forgets it or leaves it alone.
  pub evicted-BucketTracks :
      (i : ℕ) (b : Bucket)
      → i ≢ sec % window
      → BucketTracks window last h i b
      → BucketTracks window sec (hit ∷ h) i (evicted window sec b)
  unfolding lookup
  evicted-BucketTracks i b other t = elim (Bool-cases (b.epoch_second == 0)) [
    | inl unused ↦ rw unused (record {
      counts = λ j. ground (arith, t.counts j);
      placed = t.placed;
      live = inl (ground arith);
    })
    | inr used ↦ elim (Bool-cases (leb (b.epoch_second + window) sec)) [
      | inl expired ↦
          rw (used, expired)
            (record {
              counts = λ j. ground (
                arith,
                cell_count_zero j 0 h (
                    All-imp (HitTracks window last bs) (λ x. x.second ≢ 0) (λ x k. omega arith) h
                      hits),
              );
              placed = inl refl;
              live = inl refl;
            })
      | inr kept ↦
          rw (used, kept)
            (record {
              counts = λ j. ground (arith, t.counts j, t.placed);
              placed = t.placed;
              live = inr (ground arith);
            })
    ]
  ]

  -- A second that the ring does not hold has no event in the history.
  fresh_second : epoch_at (sec % window) bs ≢ sec → All (λ (x : Hit). x.second ≢ sec) h
  fresh_second n = All-imp (HitTracks window last bs) (λ x. x.second ≢ sec) none_of h hits
    where
      none_of : (x : Hit) → HitTracks window last bs x → x.second ≢ sec
      none_of x (p, le, at) e = n (rw e at (at (omega arith)))

  pub hit_bucket-BucketTracks :
      (b : Bucket)
      → get_elem? bs (sec % window) ≡ some b
      → BucketTracks window last h (sec % window) b
      → BucketTracks window sec (hit ∷ h) (sec % window) (hit_bucket window sec q score b)
  unfolding lookup insert
  hit_bucket-BucketTracks b found t = elim (Bool-cases (b.epoch_second == sec)) [
    | inl same ↦ record {
      counts = λ j. ground (arith, t.counts j, get-bump q j score b.counts);
      placed = inr (ground arith);
      live = inr (ground arith);
    }
    | inr new ↦ record {
      counts = λ j. ground (
        arith,
        get-bump q j score b.counts,
        get-bump q j score [],
        cell_count_zero j sec h (fresh_second (ground arith)),
      );
      placed = inr (ground arith);
      live = inr (ground arith);
    }
  ]
