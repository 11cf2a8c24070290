-- ===== src/Window/Order.antt =====
-- The order of the snapshot: what `sort.Slice` and the ranking give for the totals.
use mathlib.Core.List.{Perm}
use mathlib.Core.List.Perm
use wb_trial_task.Common.{
  ◌<◌, ◌≡◌, sym, ◌≢◌, true, false, List, [], ◌∷◌, arith, Str, ◌⊎◌, str_lt, str_lt_trans,
  str_lt_irrefl, str_lt_total, All, Bool-cases, inl, inr,
}
use wb_trial_task.Domain.{TopItem}
use wb_trial_task.Window.{item_less, insert_item, sort_items}

-- A list in which every item comes before all later ones.
abbrev pub IsSorted : List TopItem → Type 0
IsSorted [] = Unit
IsSorted (a ∷ rest) = All (λ b. item_less a b ≡ true) rest × IsSorted rest

-- One item stands before another: by the higher score, and by the query where the scores agree.
abbrev pub Precedes : TopItem → TopItem → Type 0
Precedes a b = (b.score < a.score) ⊎ ((a.score ≡ b.score) × (str_lt a.query b.query ≡ true))

abbrev pub IsDescending : List TopItem → Type 0
IsDescending [] = Unit
IsDescending (a ∷ rest) = All (Precedes a) rest × IsDescending rest

pub item_less-Precedes : (a b : TopItem) → item_less a b ≡ true → Precedes a b
unfolding item_less
item_less-Precedes a b h = ground arith

All-Precedes :
    (a : TopItem) (l : List TopItem) → All (λ b. item_less a b ≡ true) l → All (Precedes a) l
All-Precedes a [] h = tt
All-Precedes a (b ∷ l) h = (item_less-Precedes a b h.0, All-Precedes a l h.1)

pub IsSorted-IsDescending : (l : List TopItem) → IsSorted l → IsDescending l
IsSorted-IsDescending [] h = tt
IsSorted-IsDescending (a ∷ l) h = (All-Precedes a l h.0, IsSorted-IsDescending l h.1)

-- The items that come before a given one by the comparison come before it by the score.
pub All-Precedes_item :
    (b : TopItem) (l : List TopItem) → All (λ a. item_less a b ≡ true) l → All (λ a. Precedes a b) l
All-Precedes_item b [] h = tt
All-Precedes_item b (a ∷ l) h = (item_less-Precedes a b h.0, All-Precedes_item b l h.1)

pub item_less_trans :
    (a b c : TopItem) → item_less a b ≡ true → item_less b c ≡ true → item_less a c ≡ true
unfolding item_less
item_less_trans a b c h k = ground (arith, str_lt_trans a.query b.query c.query)

pub item_less_irrefl : (a : TopItem) → item_less a a ≡ false
unfolding item_less
item_less_irrefl a = ground (arith, str_lt_irrefl a.query)

item_less_total : (a b : TopItem) → a.query ≢ b.query → item_less a b ≡ false → item_less b a ≡ true
unfolding item_less
item_less_total a b d h = ground (arith, str_lt_total a.query b.query)

-- No item of the list has the query.
abbrev IsFresh : Str → List TopItem → Type 0
IsFresh q = All (λ b. b.query ≢ q)

-- The queries of a list of items are pairwise different.
abbrev pub HasDistinctQueries : List TopItem → Type 0
HasDistinctQueries [] = Unit
HasDistinctQueries (a ∷ rest) = All (λ b. b.query ≢ a.query) rest × HasDistinctQueries rest

All-insert_item {ℓ} :
    (P : TopItem → Type ℓ) (a : TopItem) (as' : List TopItem)
    → P a
    → All P as'
    → All P (insert_item a as')
unfolding insert_item
All-insert_item P a [] p h = (p, tt)
All-insert_item P a (b ∷ bs) p h = elim (Bool-cases (item_less a b)) [
  | inl less ↦ rw (less, insert_item) (p, h)
  | inr more ↦ rw (more, insert_item) (h.0, All-insert_item P a bs p h.1)
]

pub All-sort_items {ℓ} :
    (P : TopItem → Type ℓ) (as' : List TopItem) → All P as' → All P (sort_items as')
unfolding sort_items
All-sort_items P [] h = tt
All-sort_items P (a ∷ as') h = All-insert_item P a (sort_items as') h.0 (All-sort_items P as' h.1)

All-later :
    (a b : TopItem) (bs : List TopItem)
    → item_less a b ≡ true
    → All (λ c. item_less b c ≡ true) bs
    → All (λ c. item_less a c ≡ true) bs
All-later a b [] h k = tt
All-later a b (c ∷ bs) h k = (item_less_trans a b c h k.0, All-later a b bs h k.1)

insert_item-IsSorted :
    (a : TopItem) (bs : List TopItem)
    → All (λ b. b.query ≢ a.query) bs
    → IsSorted bs
    → IsSorted (insert_item a bs)
unfolding insert_item
insert_item-IsSorted a [] d h = (tt, tt)
insert_item-IsSorted a (b ∷ bs) d h = elim (Bool-cases (item_less a b)) [
  | inl less ↦ rw (less, insert_item) ((less, All-later a b bs less h.0), h)
  | inr more ↦
      rw (more, insert_item)
        (
          All-insert_item (λ c. item_less b c ≡ true) a bs
              (item_less_total a b (λ e. d.0 (sym e)) more) h.0,
          insert_item-IsSorted a bs d.1 h.1,
        )
]

pub sort_items-IsSorted : (as' : List TopItem) → HasDistinctQueries as' → IsSorted (sort_items as')
unfolding sort_items
sort_items-IsSorted [] d = tt
sort_items-IsSorted (a ∷ as') d =
    insert_item-IsSorted a (sort_items as') (All-sort_items (λ b. b.query ≢ a.query) as' d.0)
      (sort_items-IsSorted as' d.1)

insert_item-perm : (a : TopItem) (bs : List TopItem) → Perm (insert_item a bs) (a ∷ bs)
unfolding insert_item
insert_item-perm a [] = Perm.refl (a ∷ [])
insert_item-perm a (b ∷ bs) = elim (Bool-cases (item_less a b)) [
  | inl less ↦ rw (less, insert_item) (Perm.refl (a ∷ b ∷ bs))
  | inr more ↦
      rw (more, insert_item) (Perm.trans (Perm.cons b (insert_item-perm a bs)) (Perm.swap a b bs))
]

pub sort_items-perm : (as' : List TopItem) → Perm (sort_items as') as'
unfolding sort_items
sort_items-perm [] = Perm.refl []
sort_items-perm (a ∷ as') =
    Perm.trans (insert_item-perm a (sort_items as')) (Perm.cons a (sort_items-perm as'))
