-- ===== src/Window/Unique.antt =====
-- What a reader gets depends on the counts alone: the order in which `range` goes through the map
-- of the totals, which Go leaves open, does not show.
use mathlib.Core.Path.{subst}
use wb_trial_task.Common.{
  ℕ, ◌<◌, ◌≡◌, refl, sym, ap, ◌∙◌, true, some, List, [], ◌∷◌, arith, Str, ℤ, All, All-imp, inl, inr,
  Option-cases, take,
}
use wb_trial_task.Common.Dict.{Dict, get, lookup}
use wb_trial_task.Common.Tally.{IsTally}
use wb_trial_task.Clock.{Time}
use wb_trial_task.Domain.{TopItem}
use wb_trial_task.Window.{
  Engine, item_less, sort_items, collect_items, rank_items, item_of, build_snapshot_state, snapshot,
  limit_or_default,
}
use wb_trial_task.Window.Sums.{sum_counts}
use wb_trial_task.Window.Order.{
  IsSorted, All-sort_items, sort_items-IsSorted, item_less_trans, item_less_irrefl,
}
use wb_trial_task.Window.Ranking.{
  HasItem, HasItem-later, HasItem-sort_items, HasItem-collect_items, IsEntry, collect_items-IsEntry,
  collect_items-HasDistinctQueries,
}
use wb_trial_task.Window.Invariant.{IsValid}
use wb_trial_task.Window.Top.{refresh-fresh}

-- An item as it is collected, without a rank.
abbrev IsPlain : TopItem → Type 0
IsPlain a = a ≡ item_of a.query a.score

-- An item with the query and the score of `a` is in the list.
abbrev IsIn : List TopItem → TopItem → Type 0
IsIn l a = HasItem a.query a.score l

collect_items-IsPlain : (d : Dict ℕ) → All IsPlain (collect_items d)
unfolding collect_items
collect_items-IsPlain [] = tt
collect_items-IsPlain ((q, v) ∷ d) = ground (arith, collect_items-IsPlain d)

item_less_asym : (a b : TopItem) → item_less a b ≡ true → item_less b a ≡ true → ⊥
item_less_asym a b h k = cc (item_less_trans a b a h k, item_less_irrefl a)

-- The head of a sorted list comes before every item of its rest.
later :
    (a b : TopItem) (l : List TopItem)
    → All (λ c. item_less a c ≡ true) l
    → IsIn l b
    → item_less a b ≡ true
unfolding item_less
later a b l s h = HasItem-later b.query b.score a l s h

plain_unique :
    (a b : TopItem) → IsPlain a → IsPlain b → (a.query ≡ b.query) × (a.score ≡ b.score) → a ≡ b
plain_unique a b p r (same_query, same_score) =
    p ∙ ap (λ q. item_of q a.score) same_query ∙ ap (item_of b.query) same_score ∙ sym r

IsIn-rest :
    (a x : TopItem) (m : List TopItem)
    → IsPlain a
    → IsPlain x
    → item_less a x ≡ true
    → IsIn (a ∷ m) x
    → IsIn m x
IsIn-rest a x m p r less (inl same) =
    absurd (cc (less, item_less_irrefl x, plain_unique a x p r same))
IsIn-rest a x m p r less (inr there) = there

All-IsIn-rest :
    (a : TopItem) (m l : List TopItem)
    → IsPlain a
    → All IsPlain l
    → All (λ b. item_less a b ≡ true) l
    → All (IsIn (a ∷ m)) l
    → All (IsIn m) l
All-IsIn-rest a m [] p r less h = tt
All-IsIn-rest a m (x ∷ l) p r less h =
    (IsIn-rest a x m p r.0 less.0 h.0, All-IsIn-rest a m l p r.1 less.1 h.1)

same_head :
    (a b : TopItem) (l m : List TopItem)
    → IsSorted (a ∷ l)
    → IsSorted (b ∷ m)
    → IsPlain a
    → IsPlain b
    → IsIn (b ∷ m) a
    → IsIn (a ∷ l) b
    → a ≡ b
same_head a b l m s t p r (inl same) k = sym (plain_unique b a r p same)
same_head a b l m s t p r (inr there) (inl same) = plain_unique a b p r same
same_head a b l m s t p r (inr there) (inr here) =
    absurd (item_less_asym a b (later a b l s.0 here) (later b a m t.0 there))

-- Sorted lists with the same items are equal.
sorted_unique :
    (l m : List TopItem)
    → IsSorted l
    → IsSorted m
    → All IsPlain l
    → All IsPlain m
    → All (IsIn m) l
    → All (IsIn l) m
    → l ≡ m
sorted_unique [] [] s t p r h k = refl
sorted_unique [] (b ∷ m) s t p r h k = absurd k.0
sorted_unique (a ∷ l) [] s t p r h k = absurd h.0
sorted_unique (a ∷ l) (b ∷ m) s t p r h k =
    let e : a ≡ b = same_head a b l m s t p.0 r.0 h.0 k.0 in
    let rest : l ≡ m =
      sorted_unique l m s.1 t.1 p.1 r.1
        (All-IsIn-rest b m l r.0 p.1 (subst (λ x. All (λ c. item_less x c ≡ true) l) e s.0) h.1)
        (All-IsIn-rest a l m p.0 r.1 (subst (λ x. All (λ c. item_less x c ≡ true) m) (sym e) t.0)
          k.1) in
    ap (λ x. x ∷ l) e ∙ ap (λ rest. b ∷ rest) rest

-- The items of one map are found among those of another with the same counts.
collect_items-IsIn :
    (d d' : Dict ℕ)
    → IsTally d
    → ((q : Str) → get q d ≡ get q d')
    → All (IsIn (sort_items (collect_items d'))) (sort_items (collect_items d))
collect_items-IsIn d d' t same =
    All-sort_items (IsIn (sort_items (collect_items d'))) (collect_items d) (
      All-imp (IsEntry d) (IsIn (sort_items (collect_items d'))) found (collect_items d)
        (collect_items-IsEntry d d t.distinct (λ q v e. e)))
  where
    present : (q : Str) (v : ℕ) → lookup q d ≡ some v → 0 < v → lookup q d' ≡ some v
    present q v e p = elim (Option-cases (lookup q d')) [
      | inl missing ↦ absurd (ground (arith, same q))
      | inr (w, there) ↦ ground (arith, same q)
    ]

    found : (a : TopItem) → IsEntry d a → IsIn (sort_items (collect_items d')) a
    found a (e, p, c) =
        HasItem-sort_items a.query a.score (collect_items d')
          (HasItem-collect_items a.query a.score d' (present a.query a.score e p) p)

sort_items_unique :
    (d d' : Dict ℕ)
    → IsTally d
    → IsTally d'
    → ((q : Str) → get q d ≡ get q d')
    → sort_items (collect_items d) ≡ sort_items (collect_items d')
sort_items_unique d d' t t' same =
    sorted_unique (sort_items (collect_items d)) (sort_items (collect_items d'))
      (sort_items-IsSorted (collect_items d) (collect_items-HasDistinctQueries d t.distinct))
      (sort_items-IsSorted (collect_items d') (collect_items-HasDistinctQueries d' t'.distinct))
      (All-sort_items IsPlain (collect_items d) (collect_items-IsPlain d))
      (All-sort_items IsPlain (collect_items d') (collect_items-IsPlain d'))
      (collect_items-IsIn d d' t same) (collect_items-IsIn d' d t' (λ q. sym (same q)))

-- Two valid engines whose buckets hold the same counts answer `Snapshot` with the same items, at
-- whatever times they are asked and in whatever order their maps give the queries.
pub snapshot_unique :
    (n : ℤ) (now now' : Time) (e e' : Engine)
    → IsValid e
    → IsValid e'
    → ((q : Str) → sum_counts q e.buckets ≡ sum_counts q e'.buckets)
    → (snapshot n now e).0.items ≡ (snapshot n now' e').0.items
unfolding snapshot build_snapshot_state
snapshot_unique n now now' e e' v v' same =
    let totals =
      sort_items_unique e.totals e'.totals v.totals_tally v'.totals_tally
        (λ q. v.balanced q ∙ same q ∙ sym (v'.balanced q)) in
    ap (take (limit_or_default n))
      (refresh-fresh now e v ∙ ap (rank_items 0) totals ∙ sym (refresh-fresh now' e' v'))
