-- ===== src/Common/Dict.antt =====
-- A Go map with string keys, as an association list: `m[k] = v` replaces the entry or appends
-- one, and `delete` drops the key. Maps built from the empty one never hold a key twice.
use Prim.Native.Nat.{ℕ}
use mathlib.Core.Path.{◌≡◌, refl}
use mathlib.Core.Logic.{◌≢◌, ite}
use mathlib.Core.Bool.{Bool, true}
use mathlib.Core.List.{List, [], ◌∷◌}
use mathlib.Core.Option.{Option, none, some}
use native.Mathlib.Omega.{arith}
use wb_trial_task.Common.Tests.{if◌then◌else◌}
use wb_trial_task.Common.Text.{Str, Str-discrete}

abbrev pub Dict {ℓ} : Type ℓ → Type ℓ
Dict V = List (Str × V)

module _ {ℓ} {V : Type ℓ} where
  -- `v, ok := m[k]`
  unfoldable pub lookup : Str → Dict V → Option V
  lookup k [] = none
  lookup k ((j, v) ∷ d) = ite (Str-discrete j k) (some v) (lookup k d)

  -- `m[k] = v`
  unfoldable pub insert : Str → V → Dict V → Dict V
  insert k v [] = (k, v) ∷ []
  insert k v ((j, w) ∷ d) = ite (Str-discrete j k) ((k, v) ∷ d) ((j, w) ∷ insert k v d)

  -- `delete(m, k)`
  unfoldable pub erase : Str → Dict V → Dict V
  erase k [] = []
  erase k ((j, w) ∷ d) = ite (Str-discrete j k) (erase k d) ((j, w) ∷ erase k d)

  -- `for k, v := range m { if !keep(v) { delete(m, k) } }`
  unfoldable pub retain : (V → Bool) → Dict V → Dict V
  retain keep [] = []
  retain keep ((j, w) ∷ d) = if keep w then (j, w) ∷ retain keep d else retain keep d

  -- No key is listed twice.
  abbrev pub IsDistinct : Dict V → Type ℓ
  IsDistinct [] = Unit
  IsDistinct ((j, w) ∷ d) = (lookup j d ≡ none) × IsDistinct d

  pub lookup-insert :
      (k j : Str) (v : V) (d : Dict V)
      → lookup j (insert k v d) ≡ ite (Str-discrete k j) (some v) (lookup j d)
  unfolding lookup insert
  lookup-insert k j v [] = refl
  lookup-insert k j v ((i, w) ∷ d) = ground (arith, lookup-insert k j v d)

  pub lookup-insert_self : (k : Str) (v : V) (d : Dict V) → lookup k (insert k v d) ≡ some v
  lookup-insert_self k v d = ground (arith, lookup-insert k k v d)

  pub lookup-insert_ne :
      (k j : Str) (v : V) (d : Dict V) → k ≢ j → lookup j (insert k v d) ≡ lookup j d
  lookup-insert_ne k j v d h = ground (arith, lookup-insert k j v d)

  pub lookup-erase :
      (k j : Str) (d : Dict V) → lookup j (erase k d) ≡ ite (Str-discrete k j) none (lookup j d)
  unfolding lookup erase
  lookup-erase k j [] = ground arith
  lookup-erase k j ((i, w) ∷ d) = ground (arith, lookup-erase k j d)

  pub insert-IsDistinct : (k : Str) (v : V) (d : Dict V) → IsDistinct d → IsDistinct (insert k v d)
  unfolding lookup insert
  insert-IsDistinct k v [] h = (refl, tt)
  insert-IsDistinct k v ((j, w) ∷ d) h =
      ground (arith, insert-IsDistinct k v d h.1, lookup-insert k j v d)

  pub erase-IsDistinct : (k : Str) (d : Dict V) → IsDistinct d → IsDistinct (erase k d)
  unfolding lookup erase
  erase-IsDistinct k [] h = tt
  erase-IsDistinct k ((j, w) ∷ d) h = ground (arith, erase-IsDistinct k d h.1, lookup-erase k j d)

  lookup-retain-none :
      (keep : V → Bool) (k : Str) (d : Dict V) → lookup k d ≡ none → lookup k (retain keep d) ≡ none
  unfolding lookup retain
  lookup-retain-none keep k [] h = refl
  lookup-retain-none keep k ((j, w) ∷ d) h = ground (arith, lookup-retain-none keep k d)

  -- What is kept is what passes the test.
  pub lookup-retain :
      (keep : V → Bool) (k : Str) (d : Dict V)
      → IsDistinct d
      → lookup k (retain keep d)
        ≡ elim (lookup k d) [ none ↦ none | some v ↦ if keep v then some v else none ]
  unfolding lookup retain
  lookup-retain keep k [] h = refl
  lookup-retain keep k ((j, w) ∷ d) h =
      ground (arith, lookup-retain keep k d h.1, lookup-retain-none keep k d)

  pub retain-IsDistinct : (keep : V → Bool) (d : Dict V) → IsDistinct d → IsDistinct (retain keep d)
  unfolding retain
  retain-IsDistinct keep [] h = tt
  retain-IsDistinct keep ((j, w) ∷ d) h =
      ground (arith, retain-IsDistinct keep d h.1, lookup-retain-none keep j d h.0)

  -- An entry that passes the test is kept, also where a key might stand twice.
  pub lookup-retain-some :
      (keep : V → Bool) (k : Str) (v : V) (d : Dict V)
      → lookup k d ≡ some v
      → keep v ≡ true
      → lookup k (retain keep d) ≡ some v
  unfolding lookup retain
  lookup-retain-some keep k v [] h p = cc
  lookup-retain-some keep k v ((j, w) ∷ d) h p = ground (arith, lookup-retain-some keep k v d)

-- `m[k]` of a map of numbers: 0 where the key is missing.
abbrev pub get : Str → Dict ℕ → ℕ
get k d = elim (lookup k d) [ none ↦ 0 | some v ↦ v ]
