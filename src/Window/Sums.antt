-- ===== src/Window/Sums.antt =====
-- How the operations of the ring change the count of one query, in the totals and in the buckets.
use wb_trial_task.Common.{
  ℕ, zero, suc, ◌+◌, ◌-◌, ◌≤◌, ◌<◌, ◌≡◌, some, List, [], ◌∷◌, arith, ite, Str, Str-discrete,
  get_elem?, set, All,
}
use wb_trial_task.Common.Dict.{
  Dict, get, lookup, IsDistinct, lookup-insert, lookup-erase, insert-IsDistinct, erase-IsDistinct,
}
use wb_trial_task.Common.Tally.{IsTally, IsTally-nil, insert-IsPositive, erase-IsPositive}
use wb_trial_task.Window.{Bucket, subtract_count, remove_counts, evict_bucket, claim_bucket, bump}

-- The count of a query over all buckets.
abbrev pub sum_counts : Str → List Bucket → ℕ
sum_counts q [] = 0
sum_counts q (b ∷ bs) = get q b.counts + sum_counts q bs

pub get-subtract_count :
    (q j : Str) (cnt : ℕ) (totals : Dict ℕ)
    → get j (subtract_count q cnt totals)
      ≡ ite (Str-discrete q j) (get j totals - cnt) (get j totals)
get-subtract_count q j cnt totals =
    ground (arith, lookup-erase q j totals, lookup-insert q j (get q totals - cnt) totals)

subtract_count-IsTally :
    (q : Str) (cnt : ℕ) (totals : Dict ℕ) → IsTally totals → IsTally (subtract_count q cnt totals)
subtract_count-IsTally q cnt totals h = ground (
  arith,
  insert-IsDistinct q (get q totals - cnt) totals h.distinct,
  erase-IsDistinct q totals h.distinct,
  insert-IsPositive q (get q totals - cnt) totals,
  erase-IsPositive q totals h.positive,
)

pub get-remove_counts :
    (j : Str) (counts totals : Dict ℕ)
    → IsDistinct counts
    → get j (remove_counts counts totals) ≡ get j totals - get j counts
unfolding remove_counts lookup
get-remove_counts j [] totals h = omega arith
get-remove_counts j ((q, cnt) ∷ counts) totals h = ground (
  arith,
  get-remove_counts j counts (subtract_count q cnt totals) h.1,
  get-subtract_count q j cnt totals,
)

pub remove_counts-IsTally :
    (counts totals : Dict ℕ) → IsTally totals → IsTally (remove_counts counts totals)
unfolding remove_counts
remove_counts-IsTally [] totals h = h
remove_counts-IsTally ((q, cnt) ∷ counts) totals h =
    remove_counts-IsTally counts (subtract_count q cnt totals)
      (subtract_count-IsTally q cnt totals h)

pub get-bump :
    (q j : Str) (score : ℕ) (d : Dict ℕ)
    → get j (bump q score d) ≡ ite (Str-discrete q j) (get j d + score) (get j d)
get-bump q j score d = ground (arith, lookup-insert q j (get q d + score) d)

pub bump-IsTally :
    (q : Str) (score : ℕ) (d : Dict ℕ) → 0 < score → IsTally d → IsTally (bump q score d)
bump-IsTally q score d p h = record {
  distinct = insert-IsDistinct q _ d h.distinct;
  positive = insert-IsPositive q _ d (omega arith) h.positive;
}

-- Every bucket's counts are a tally.
abbrev pub AllTally : List Bucket → Type 0
AllTally = All (λ b. IsTally b.counts)

-- Both steps below take from the totals exactly what they take from the bucket.
pub get-evict_bucket :
    (j : Str) (max_age cur : ℕ) (b : Bucket) (totals : Dict ℕ)
    → IsTally b.counts
    → get j b.counts ≤ get j totals
    → let (b', totals') = evict_bucket max_age cur b totals in
      (get j totals' + get j b.counts ≡ get j totals + get j b'.counts)
unfolding evict_bucket lookup
get-evict_bucket j max_age cur b totals h le =
    ground (arith, get-remove_counts j b.counts totals h.distinct)

pub get-claim_bucket :
    (j : Str) (sec : ℕ) (b : Bucket) (totals : Dict ℕ)
    → IsTally b.counts
    → get j b.counts ≤ get j totals
    → let (b', totals') = claim_bucket sec b totals in
      (get j totals' + get j b.counts ≡ get j totals + get j b'.counts)
unfolding claim_bucket lookup
get-claim_bucket j sec b totals h le =
    ground (arith, get-remove_counts j b.counts totals h.distinct)

pub evict_bucket-IsTally :
    (max_age cur : ℕ) (b : Bucket) (totals : Dict ℕ)
    → IsTally b.counts
    → IsTally totals
    → let (b', totals') = evict_bucket max_age cur b totals in IsTally b'.counts × IsTally totals'
unfolding evict_bucket
evict_bucket-IsTally max_age cur b totals h k =
    ground (arith, remove_counts-IsTally b.counts totals k, IsTally-nil)

pub claim_bucket-IsTally :
    (sec : ℕ) (b : Bucket) (totals : Dict ℕ)
    → IsTally b.counts
    → IsTally totals
    → let (b', totals') = claim_bucket sec b totals in IsTally b'.counts × IsTally totals'
unfolding claim_bucket
claim_bucket-IsTally sec b totals h k =
    ground (arith, remove_counts-IsTally b.counts totals k, IsTally-nil)

pub sum_counts-set :
    (j : Str) (idx : ℕ) (b b' : Bucket) (bs : List Bucket)
    → get_elem? bs idx ≡ some b
    → sum_counts j (set bs idx b') + get j b.counts ≡ sum_counts j bs + get j b'.counts
sum_counts-set j idx b b' [] h = cc
sum_counts-set j zero b b' (a ∷ bs) h = ground arith
sum_counts-set j (suc idx) b b' (a ∷ bs) h = omega (arith, sum_counts-set j idx b b' bs h)

pub get-le-sum_counts :
    (j : Str) (idx : ℕ) (b : Bucket) (bs : List Bucket)
    → get_elem? bs idx ≡ some b
    → get j b.counts ≤ sum_counts j bs
get-le-sum_counts j idx b [] h = cc
get-le-sum_counts j zero b (a ∷ bs) h = ground arith
get-le-sum_counts j (suc idx) b (a ∷ bs) h = omega (arith, get-le-sum_counts j idx b bs h)

pub AllTally-get_elem? :
    (idx : ℕ) (b : Bucket) (bs : List Bucket)
    → AllTally bs
    → get_elem? bs idx ≡ some b
    → IsTally b.counts
AllTally-get_elem? idx b [] h e = cc
AllTally-get_elem? zero b (a ∷ bs) h e = ground arith
AllTally-get_elem? (suc idx) b (a ∷ bs) h e = AllTally-get_elem? idx b bs h.1 e

pub AllTally-set :
    (idx : ℕ) (b : Bucket) (bs : List Bucket)
    → AllTally bs
    → IsTally b.counts
    → AllTally (set bs idx b)
AllTally-set idx b [] h e = tt
AllTally-set zero b (a ∷ bs) h e = (e, h.1)
AllTally-set (suc idx) b (a ∷ bs) h e = (h.0, AllTally-set idx b bs h.1 e)
