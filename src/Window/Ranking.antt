-- ===== src/Window/Ranking.antt =====
-- What collecting, sorting and ranking keep of the totals.
use wb_trial_task.Common.{
  ℕ, zero, suc, ◌+◌, ◌<◌, ◌≡◌, refl, ◌≢◌, true, none, some, List, [], ◌∷◌, arith, Str, Str-discrete,
  take, All, Bool-cases, inl, inr, ◌⊎◌,
}
use wb_trial_task.Common.Dict.{Dict, lookup, IsDistinct}
use wb_trial_task.Domain.{TopItem}
use wb_trial_task.Window.{item_less, insert_item, sort_items, collect_items, rank_items, item_of}
use wb_trial_task.Window.Order.{IsSorted, HasDistinctQueries}

-- The items have the ranks `i + 1`, `i + 2`, and so on.
abbrev pub HasRanks : ℕ → List TopItem → Type 0
HasRanks i [] = Unit
HasRanks i (a ∷ rest) = (a.rank ≡ i + 1) × HasRanks (i + 1) rest

-- An item with this query and this score is in the list.
abbrev pub HasItem : Str → ℕ → List TopItem → Type 0
HasItem q v [] = ⊥
HasItem q v (a ∷ rest) = ((a.query ≡ q) × (a.score ≡ v)) ⊎ HasItem q v rest

-- What comes before all items of a list comes before each of them.
pub HasItem-later :
    (q : Str) (v : ℕ) (a : TopItem) (l : List TopItem)
    → All (λ b. item_less a b ≡ true) l
    → HasItem q v l
    → item_less a (item_of q v) ≡ true
HasItem-later q v a [] less h = absurd h
HasItem-later q v a (b ∷ l) less (inl h) = unfold item_less in ground arith
HasItem-later q v a (b ∷ l) less (inr h) = HasItem-later q v a l less.1 h

pub rank_items-HasRanks : (i : ℕ) (l : List TopItem) → HasRanks i (rank_items i l)
unfolding rank_items
rank_items-HasRanks i [] = tt
rank_items-HasRanks i (a ∷ l) = (refl, rank_items-HasRanks (i + 1) l)

pub HasRanks-take : (i n : ℕ) (l : List TopItem) → HasRanks i l → HasRanks i (take n l)
HasRanks-take i zero l h = tt
HasRanks-take i (suc n) [] h = tt
HasRanks-take i (suc n) (a ∷ l) h = (h.0, HasRanks-take (i + 1) n l h.1)

pub All-take {ℓ} : (P : TopItem → Type ℓ) (n : ℕ) (l : List TopItem) → All P l → All P (take n l)
All-take P zero l h = tt
All-take P (suc n) [] h = tt
All-take P (suc n) (a ∷ l) h = (h.0, All-take P n l h.1)

pub IsSorted-take : (n : ℕ) (l : List TopItem) → IsSorted l → IsSorted (take n l)
IsSorted-take zero l h = tt
IsSorted-take (suc n) [] h = tt
IsSorted-take (suc n) (a ∷ l) h =
    (All-take (λ b. item_less a b ≡ true) n l h.0, IsSorted-take n l h.1)

-- Ranking changes neither queries nor scores.
pub All-rank_items {ℓ} :
    (P : TopItem → Type ℓ)
    → ((a : TopItem) (r : ℕ) → P a → P (record a { rank = r }))
    → (i : ℕ) (l : List TopItem) → All P l
    → All P (rank_items i l)
unfolding rank_items
All-rank_items P keep i [] h = tt
All-rank_items P keep i (a ∷ l) h = (keep a (i + 1) h.0, All-rank_items P keep (i + 1) l h.1)

pub IsSorted-rank_items : (i : ℕ) (l : List TopItem) → IsSorted l → IsSorted (rank_items i l)
unfolding rank_items item_less
IsSorted-rank_items i [] h = tt
IsSorted-rank_items i (a ∷ l) h = (
  All-rank_items (λ b. item_less a b ≡ true) (λ b r p. p) (i + 1) l h.0,
  IsSorted-rank_items (i + 1) l h.1,
)

pub HasItem-rank_items :
    (q : Str) (v i : ℕ) (l : List TopItem) → HasItem q v l → HasItem q v (rank_items i l)
unfolding rank_items
HasItem-rank_items q v i (a ∷ l) (inl h) = inl h
HasItem-rank_items q v i (a ∷ l) (inr h) = inr (HasItem-rank_items q v (i + 1) l h)
HasItem-rank_items q v i [] h = h

HasItem-insert_item :
    (q : Str) (v : ℕ) (a : TopItem) (l : List TopItem)
    → HasItem q v (a ∷ l)
    → HasItem q v (insert_item a l)
unfolding insert_item
HasItem-insert_item q v a [] h = h
HasItem-insert_item q v a (b ∷ l) h = elim (Bool-cases (item_less a b)) [
  | inl less ↦ rw (less, insert_item) h
  | inr more ↦
      rw (more, insert_item)
        (elim h [
          | inl here ↦ inr (HasItem-insert_item q v a l (inl here))
          | inr (inl next) ↦ inl next
          | inr (inr later) ↦ inr (HasItem-insert_item q v a l (inr later))
        ])
]

pub HasItem-sort_items :
    (q : Str) (v : ℕ) (l : List TopItem) → HasItem q v l → HasItem q v (sort_items l)
unfolding sort_items
HasItem-sort_items q v [] h = h
HasItem-sort_items q v (a ∷ l) (inl h) = HasItem-insert_item q v a (sort_items l) (inl h)
HasItem-sort_items q v (a ∷ l) (inr h) =
    HasItem-insert_item q v a (sort_items l) (inr (HasItem-sort_items q v l h))

pub HasItem-collect_items :
    (q : Str) (v : ℕ) (d : Dict ℕ) → lookup q d ≡ some v → 0 < v → HasItem q v (collect_items d)
unfolding lookup collect_items
HasItem-collect_items q v [] e p = cc
HasItem-collect_items q v ((j, w) ∷ d) e p = elim (Str-discrete j q) [
  | yes same ↦ ground arith
  | no other ↦ ground (arith, HasItem-collect_items q v d)
]

-- Nothing with this query is collected from a map that lacks it.
collect_items_fresh :
    (q : Str) (d : Dict ℕ) → lookup q d ≡ none → All (λ b. b.query ≢ q) (collect_items d)
unfolding lookup collect_items
collect_items_fresh q [] e = tt
collect_items_fresh q ((j, w) ∷ d) e = ground (arith, collect_items_fresh q d)

pub collect_items-HasDistinctQueries :
    (d : Dict ℕ) → IsDistinct d → HasDistinctQueries (collect_items d)
unfolding collect_items
collect_items-HasDistinctQueries [] h = tt
collect_items-HasDistinctQueries ((j, w) ∷ d) h =
    ground (arith, collect_items_fresh j d h.0, collect_items-HasDistinctQueries d h.1)

-- An item as the map `t` gives it.
abbrev pub IsEntry : Dict ℕ → TopItem → Type 0
IsEntry t a = (lookup a.query t ≡ some a.score) × (0 < a.score) × (a.count ≡ a.score)

pub collect_items-IsEntry :
    (t d : Dict ℕ)
    → IsDistinct d
    → ((q : Str) (v : ℕ) → lookup q d ≡ some v → lookup q t ≡ some v)
    → All (IsEntry t) (collect_items d)
unfolding lookup collect_items
collect_items-IsEntry t [] h within = tt
collect_items-IsEntry t ((j, w) ∷ d) h within =
    ground (arith, within j w, collect_items-IsEntry t d h.1 (λ q v e. within q v (ground arith)))
