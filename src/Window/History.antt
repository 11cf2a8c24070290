-- ===== src/Window/History.antt =====
-- The history of the events that reached the ring, and what the ring holds of it while the seconds
-- of the events do not go backwards.
use wb_trial_task.Common.{
  ℕ, zero, suc, ◌+◌, ◌*◌, ◌%◌, ◌≤◌, ◌<◌, ◌≡◌, refl, ◌≢◌, none, some, List, [], ◌∷◌, arith, ltb,
  ◌==◌, if◌then◌else◌, ite, Str, Str-discrete, get_elem?, ◌⊎◌, All,
}
use wb_trial_task.Common.Dict.{get}
use wb_trial_task.Window.{Bucket}
use wb_trial_task.Window.Sums.{sum_counts}

-- An event that was counted.
pub record Hit : Type 0 where
  pub second : ℕ
  pub query : Str
  pub score : ℕ

-- The score of a query in one second.
abbrev pub cell_count : Str → ℕ → List Hit → ℕ
cell_count q s [] = 0
cell_count q s (x ∷ h) =
    (if x.second == s then ite (Str-discrete x.query q) x.score 0 else 0) + cell_count q s h

-- The score of a query in the `window` seconds that end with `last`.
abbrev pub window_count : Str → ℕ → ℕ → List Hit → ℕ
window_count q window last [] = 0
window_count q window last (x ∷ h) =
    (if ltb last (x.second + window) then ite (Str-discrete x.query q) x.score 0 else 0)
    + window_count q window last h

-- A window that ends later has no more in it of the same history.
pub window_count-later-le :
    (q : Str) (window last late : ℕ) (h : List Hit)
    → window_count q window (last + late) h ≤ window_count q window last h
window_count-later-le q window last late [] = omega arith
window_count-later-le q window last late (x ∷ h) =
    ground (arith, window_count-later-le q window last late h)

-- The second that the bucket at an index holds; 0 is none.
abbrev pub epoch_at : ℕ → List Bucket → ℕ
epoch_at i bs = elim (get_elem? bs i) [ none ↦ 0 | some b ↦ b.epoch_second ]

-- A bucket at its place: empty, or the counts of one second of the window.
pub record BucketTracks (window last : ℕ) (h : List Hit) (i : ℕ) (b : Bucket) : Type 0 where
  pub counts : (q : Str) → get q b.counts ≡ cell_count q b.epoch_second h
  pub placed : (b.epoch_second ≡ 0) ⊎ (b.epoch_second % window ≡ i)
  pub live : (b.epoch_second ≡ 0) ⊎ (last < b.epoch_second + window)

-- The second of a past event, with the ring's bucket for it while it is in the window.
abbrev pub HitTracks : ℕ → ℕ → List Bucket → Hit → Type 0
HitTracks window last bs x =
    (0 < x.second)
    × (x.second ≤ last)
    × (last < x.second + window → epoch_at (x.second % window) bs ≡ x.second)

pub record Tracks (window last : ℕ) (h : List Hit) (bs : List Bucket) : Type 0 where
  pub buckets : (i : ℕ) (b : Bucket) → get_elem? bs i ≡ some b → BucketTracks window last h i b
  pub hits : All (HitTracks window last bs) h

pub cell_count_zero :
    (q : Str) (s : ℕ) (h : List Hit) → All (λ (x : Hit). x.second ≢ s) h → cell_count q s h ≡ 0
cell_count_zero q s [] a = refl
cell_count_zero q s (x ∷ h) a = ground (arith, cell_count_zero q s h a.1)

-- Two seconds of one window that share a bucket are one.
pub same_second : (w a b : ℕ) → 0 < w → a ≤ b → b < a + w → a % w ≡ b % w → a ≡ b
same_second w a b p h k e = grind arith

-- How many buckets hold a second.
abbrev pub holders : ℕ → List Bucket → ℕ
holders s [] = 0
holders s (b ∷ bs) = (if b.epoch_second == s then 1 else 0) + holders s bs

pub holders_zero :
    (s : ℕ) (bs : List Bucket)
    → ((i : ℕ) (b : Bucket) → get_elem? bs i ≡ some b → b.epoch_second ≢ s)
    → holders s bs ≡ 0
holders_zero s [] h = refl
holders_zero s (b ∷ bs) h =
    ground (arith, h zero b refl, holders_zero s bs (λ i c g. h (suc i) c g))

pub holders_one :
    (s j : ℕ) (bs : List Bucket)
    → 0 < s
    → ((i : ℕ) (b : Bucket) → get_elem? bs i ≡ some b → b.epoch_second ≡ s → i ≡ j)
    → epoch_at j bs ≡ s
    → holders s bs ≡ 1
holders_one s j [] p h e = absurd (omega arith)
holders_one s zero (b ∷ bs) p h e =
    let rest : holders s bs ≡ 0 =
      holders_zero s bs (λ i c g k. absurd (zero_suc i (h (suc i) c g k))) in
    ground arith
  where
    zero_suc : (i : ℕ) → suc i ≡ zero → ⊥
    zero_suc i e = omega arith
holders_one s (suc j) (b ∷ bs) p h e =
    let rest : holders s bs ≡ 1 = holders_one s j bs p (λ i c g k. pred_eq i (h (suc i) c g k)) e in
    ground (arith, h zero b refl)
  where
    pred_eq : (i : ℕ) → suc i ≡ suc j → i ≡ j
    pred_eq i e = omega arith

-- The sum over the buckets of what each one's second has in the history.
pub sum_cells : Str → List Bucket → List Hit → ℕ
sum_cells q [] h = 0
sum_cells q (b ∷ bs) h = cell_count q b.epoch_second h + sum_cells q bs h

pub sum_counts-eq-sum_cells :
    (q : Str) (bs : List Bucket) (h : List Hit)
    → ((i : ℕ) (b : Bucket)
        → get_elem? bs i ≡ some b
        → get q b.counts ≡ cell_count q b.epoch_second h)
    → sum_counts q bs ≡ sum_cells q bs h
unfolding sum_cells
sum_counts-eq-sum_cells q [] h c = refl
sum_counts-eq-sum_cells q (b ∷ bs) h c =
    omega (arith, c zero b refl, sum_counts-eq-sum_cells q bs h (λ i a g. c (suc i) a g))

pub sum_cells-nil : (q : Str) (bs : List Bucket) → sum_cells q bs [] ≡ 0
unfolding sum_cells
sum_cells-nil q [] = refl
sum_cells-nil q (b ∷ bs) = omega (arith, sum_cells-nil q bs)

pub sum_cells-cons :
    (q : Str) (bs : List Bucket) (x : Hit) (h : List Hit)
    → sum_cells q bs (x ∷ h)
      ≡ holders x.second bs * ite (Str-discrete x.query q) x.score 0 + sum_cells q bs h
unfolding sum_cells
sum_cells-cons q [] x h = omega arith
sum_cells-cons q (b ∷ bs) x h = ground (arith, sum_cells-cons q bs x h)
