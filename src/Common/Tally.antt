-- ===== src/Common/Tally.antt =====
-- Maps of counts: no key twice, and every count positive, so that a count of 0 is a missing key.
use Prim.Native.Nat.{ℕ, ◌≤◌, ◌<◌}
use mathlib.Core.Path.{◌≡◌}
use mathlib.Core.List.{[], ◌∷◌}
use mathlib.Core.Option.{some}
use native.Mathlib.Omega.{arith}
use wb_trial_task.Common.Lists.{length}
use wb_trial_task.Common.Text.{Str}
use wb_trial_task.Common.Dict.{
  Dict, lookup, insert, erase, IsDistinct, insert-IsDistinct, erase-IsDistinct,
}

-- Every stored count is positive.
abbrev pub IsPositive : Dict ℕ → Type 0
IsPositive [] = Unit
IsPositive ((k, v) ∷ d) = (0 < v) × IsPositive d

pub insert-IsPositive :
    (k : Str) (v : ℕ) (d : Dict ℕ) → 0 < v → IsPositive d → IsPositive (insert k v d)
unfolding insert
insert-IsPositive k v [] p h = (p, tt)
insert-IsPositive k v ((j, w) ∷ d) p h = ground (arith, insert-IsPositive k v d p h.1)

pub erase-IsPositive : (k : Str) (d : Dict ℕ) → IsPositive d → IsPositive (erase k d)
unfolding erase
erase-IsPositive k [] h = tt
erase-IsPositive k ((j, w) ∷ d) h = ground (arith, erase-IsPositive k d h.1)

pub lookup_pos : (k : Str) (v : ℕ) (d : Dict ℕ) → IsPositive d → lookup k d ≡ some v → 0 < v
unfolding lookup
lookup_pos k v [] h e = cc
lookup_pos k v ((j, w) ∷ d) h e = ground (arith, lookup_pos k v d h.1)

-- What the totals satisfy: no query twice, and every total positive.
pub record IsTally (d : Dict ℕ) : Type 0 where
  pub distinct : IsDistinct d
  pub positive : IsPositive d

pub IsTally-nil : IsTally []
IsTally-nil = record { distinct = tt; positive = tt }

pub insert-IsTally : (k : Str) (v : ℕ) (d : Dict ℕ) → 0 < v → IsTally d → IsTally (insert k v d)
insert-IsTally k v d p h = record {
  distinct = insert-IsDistinct k v d h.distinct;
  positive = insert-IsPositive k v d p h.positive;
}

pub erase-IsTally : (k : Str) (d : Dict ℕ) → IsTally d → IsTally (erase k d)
erase-IsTally k d h = record {
  distinct = erase-IsDistinct k d h.distinct;
  positive = erase-IsPositive k d h.positive;
}

pub length-erase-le : (k : Str) (d : Dict ℕ) → length (erase k d) ≤ length d
unfolding erase
length-erase-le k [] = omega arith
length-erase-le k ((j, w) ∷ d) = ground (arith, length-erase-le k d)

pub length-insert_present :
    (k : Str) (v w : ℕ) (d : Dict ℕ) → lookup k d ≡ some w → length (insert k v d) ≡ length d
unfolding lookup insert
length-insert_present k v w [] h = cc
length-insert_present k v w ((j, x) ∷ d) h = ground (arith, length-insert_present k v w d)
