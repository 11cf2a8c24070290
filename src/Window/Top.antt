-- ===== src/Window/Top.antt =====
-- What a reader of the window engine gets: the best queries by their counts in the ring.
use wb_trial_task.Common.{
  ℕ, zero, suc, ◌+◌, ◌<◌, ◌≡◌, refl, true, false, List, [], ◌∷◌, arith, Str, min, ℤ, length, take,
  All, Bool-cases, inl, inr, ◌⊎◌,
}
use wb_trial_task.Common.Dict.{Dict}
use wb_trial_task.Clock.{Time}
use wb_trial_task.Domain.{TopItem}
use wb_trial_task.Window.{
  Engine, item_less, insert_item, sort_items, collect_items, rank_items, item_of,
  build_snapshot_state, rebuild, refresh, snapshot, limit_or_default,
}
use wb_trial_task.Common.Tally.{IsPositive}
use wb_trial_task.Window.Sums.{sum_counts}
use wb_trial_task.Window.Order.{
  IsSorted, IsDescending, Precedes, IsSorted-IsDescending, All-Precedes_item, All-sort_items,
  sort_items-IsSorted,
}
use wb_trial_task.Window.Invariant.{IsValid, ranked, refresh-IsValid}
use wb_trial_task.Window.Ranking.{
  HasRanks, HasItem, IsEntry, rank_items-HasRanks, HasRanks-take, All-take, IsSorted-take,
  All-rank_items, IsSorted-rank_items, HasItem-rank_items, HasItem-sort_items, HasItem-later,
  HasItem-collect_items, collect_items-HasDistinctQueries, collect_items-IsEntry,
}

length-insert_item : (a : TopItem) (l : List TopItem) → length (insert_item a l) ≡ suc (length l)
unfolding insert_item
length-insert_item a [] = refl
length-insert_item a (b ∷ l) = ground (arith, length-insert_item a l)

length-sort_items : (l : List TopItem) → length (sort_items l) ≡ length l
unfolding sort_items
length-sort_items [] = refl
length-sort_items (a ∷ l) = omega (arith, length-insert_item a (sort_items l), length-sort_items l)

length-rank_items : (i : ℕ) (l : List TopItem) → length (rank_items i l) ≡ length l
unfolding rank_items
length-rank_items i [] = refl
length-rank_items i (a ∷ l) = omega (arith, length-rank_items (i + 1) l)

length-collect_items : (d : Dict ℕ) → IsPositive d → length (collect_items d) ≡ length d
unfolding collect_items
length-collect_items [] h = refl
length-collect_items ((q, v) ∷ d) h = ground (arith, length-collect_items d h.1)

length-take-min : (n : ℕ) (l : List TopItem) → length (take n l) ≡ min n (length l)
length-take-min zero l = omega arith
length-take-min (suc n) [] = omega arith
length-take-min (suc n) (a ∷ l) = omega (arith, length-take-min n l)

-- An item of a sorted list is among the first `n`, or comes after all of them.
HasItem-take :
    (q : Str) (v n : ℕ) (l : List TopItem)
    → IsSorted l
    → HasItem q v l
    → HasItem q v (take n l) ⊎ All (λ a. item_less a (item_of q v) ≡ true) (take n l)
HasItem-take q v zero l s h = inr tt
HasItem-take q v (suc n) [] s h = absurd h
HasItem-take q v (suc n) (a ∷ l) s (inl h) = inl (inl h)
HasItem-take q v (suc n) (a ∷ l) s (inr h) = elim (HasItem-take q v n l s.1 h) [
  | inl taken ↦ inl (inr taken)
  | inr after ↦ inr (HasItem-later q v a l s.0 h, after)
]

ranked-IsSorted : (e : Engine) → IsValid e → IsSorted (ranked e)
unfolding build_snapshot_state
ranked-IsSorted e v = IsSorted-rank_items 0 (sort_items (collect_items e.totals)) (
    sort_items-IsSorted (collect_items e.totals)
      (collect_items-HasDistinctQueries e.totals v.totals_tally.distinct))

ranked-IsEntry : (e : Engine) → IsValid e → All (IsEntry e.totals) (ranked e)
unfolding build_snapshot_state
ranked-IsEntry e v =
    All-rank_items (IsEntry e.totals) (λ a r h. h) 0 (sort_items (collect_items e.totals))
      (All-sort_items (IsEntry e.totals) (collect_items e.totals)
        (collect_items-IsEntry e.totals e.totals v.totals_tally.distinct (λ q w p. p)))

-- The items are the `n` best queries of the ring: ranked from 1, by falling
-- score and rising query, each with the
-- positive count that the buckets hold for it; as many as there are queries, up to `n`; and a
-- query with a positive count that is missing comes after every item that is there.
pub record IsTop (n : ℕ) (e : Engine) (items : List TopItem) : Type 0 where
  pub ranks : HasRanks 0 items
  pub descending : IsDescending items
  pub counted :
      All
        (λ a. (a.score ≡ sum_counts a.query e.buckets) × (0 < a.score) × (a.count ≡ a.score))
        items
  pub size : length items ≡ min n (length e.totals)
  pub complete :
      (q : Str)
      → 0 < sum_counts q e.buckets
      → HasItem q (sum_counts q e.buckets) items
        ⊎ All (λ a. Precedes a (item_of q (sum_counts q e.buckets))) items

take-ranked-IsTop : (n : ℕ) (e : Engine) → IsValid e → IsTop n e (take n (ranked e))
unfolding build_snapshot_state
take-ranked-IsTop n e v = record {
  ranks =
      HasRanks-take 0 n (ranked e) (rank_items-HasRanks 0 (sort_items (collect_items e.totals)));
  descending =
      IsSorted-IsDescending (take n (ranked e)) (IsSorted-take n (ranked e) (ranked-IsSorted e v));
  counted =
      counts_of (take n (ranked e)) (All-take (IsEntry e.totals) n (ranked e) (ranked-IsEntry e v));
  size = omega (
    arith,
    length-take-min n (ranked e),
    length-rank_items 0 (sort_items (collect_items e.totals)),
    length-sort_items (collect_items e.totals),
    length-collect_items e.totals v.totals_tally.positive,
  );
  complete = λ q p.
      let found : HasItem q (sum_counts q e.buckets) (ranked e) =
        HasItem-rank_items q (sum_counts q e.buckets) 0 (sort_items (collect_items e.totals)) (
          HasItem-sort_items q (sum_counts q e.buckets) (collect_items e.totals) (
            HasItem-collect_items q (sum_counts q e.buckets) e.totals (ground (arith, v.balanced q))
              p)) in
      elim (HasItem-take q (sum_counts q e.buckets) n (ranked e) (ranked-IsSorted e v) found) [
        | inl taken ↦ inl taken
        | inr after ↦
            inr (All-Precedes_item (item_of q (sum_counts q e.buckets)) (take n (ranked e)) after)
      ];
}
  where
    counts_of :
        (l : List TopItem)
        → All (IsEntry e.totals) l
        → All
            (λ a. (a.score ≡ sum_counts a.query e.buckets) × (0 < a.score) × (a.count ≡ a.score))
            l
    counts_of [] h = tt
    counts_of (a ∷ l) h = ((ground (arith, v.balanced a.query, h.0), h.0.1, h.0.2), counts_of l h.1)

pub refresh-fresh : (now : Time) (e : Engine) → IsValid e → (refresh now e).cached.items ≡ ranked e
unfolding refresh rebuild build_snapshot_state
refresh-fresh now e v = elim (Bool-cases e.dirty) [
  | inl d ↦ ground arith
  | inr c ↦ ground (arith, v.fresh c)
]

pub refresh-same :
    (now : Time) (e : Engine)
    → ((refresh now e).buckets ≡ e.buckets)
      × ((refresh now e).totals ≡ e.totals)
      × ((refresh now e).window_seconds ≡ e.window_seconds)
unfolding refresh rebuild
refresh-same now e = ground arith

-- On a valid engine the reply of `Snapshot` holds exactly the top `n` queries of the ring (10
-- where `n` is not positive) and the size of the window; the buckets and the totals stay, and
-- the engine stays valid with a cache that is up to date.
pub snapshot-IsTop :
    (n : ℤ) (now : Time) (e : Engine)
    → IsValid e
    → let (reply, e') = snapshot n now e in
      IsTop (limit_or_default n) e reply.items
      × (reply.window_seconds ≡ e.window_seconds)
      × (e'.buckets ≡ e.buckets)
      × (e'.totals ≡ e.totals)
      × (e'.dirty ≡ false)
      × IsValid e'
unfolding snapshot
snapshot-IsTop n now e v =
    let (same_buckets, same_totals, same_window) = refresh-same now e in
    (
      rw (refresh-fresh now e v) (take-ranked-IsTop (limit_or_default n) e v),
      same_window,
      same_buckets,
      same_totals,
      unfold refresh rebuild in ground arith,
      refresh-IsValid now e v,
    )
