-- ===== src/Normalizer/Words.antt =====
-- Splitting into words commutes with trimming and with replacing runs by a separator.
use wb_trial_task.Common.{
  ℕ, ◌≡◌, refl, ap, ◌∙◌, Bool, true, false, not, ◌&&◌, [], ◌∷◌, arith, Str, Bool-cases, inl, inr,
}
use wb_trial_task.Normalizer.Text.{
  is_space, trim_left, trim_right, trim_space, replace_runs, push, runs, words,
}

-- The runes that are kept after a replacement of those of `p`.
abbrev pub keep_but : (ℕ → Bool) → (ℕ → Bool) → ℕ → Bool
keep_but keep p c = keep c && not (p c)

module _ (keep p : ℕ → Bool) (by : ℕ) (separates : keep by ≡ false) where
  mutual
    unfolding runs replace_runs

    -- After a rune outside a run the split is the same, and inside a run so are the words.
    runs-replace_runs : (s : Str) → runs keep (replace_runs p by false s) ≡ runs (keep_but keep p) s
    runs-replace_runs [] = refl
    runs-replace_runs (c ∷ s) = elim (Bool-cases (p c)) [
      | inl m ↦ rw m (ground (arith, push-replace_runs s))
      | inr n ↦ rw n (ground (arith, runs-replace_runs s))
    ]

    push-replace_runs :
        (s : Str) → push (runs keep (replace_runs p by true s)) ≡ push (runs (keep_but keep p) s)
    push-replace_runs [] = refl
    push-replace_runs (c ∷ s) = elim (Bool-cases (p c)) [
      | inl m ↦ rw m (ground (arith, push-replace_runs s))
      | inr n ↦ rw n (ground (arith, runs-replace_runs s))
    ]

  pub words-replace_runs :
      (s : Str) → words keep (replace_runs p by false s) ≡ words (keep_but keep p) s
  unfolding words
  words-replace_runs s = ap push (runs-replace_runs s)

module _ (keep : ℕ → Bool) (outside : (c : ℕ) → is_space c ≡ true → keep c ≡ false) where
  words-trim_left : (s : Str) → words keep (trim_left s) ≡ words keep s
  unfolding words trim_left
  words-trim_left [] = refl
  words-trim_left (c ∷ s) = ground (arith, outside c, words-trim_left s)

  runs-trim_right : (s : Str) → runs keep (trim_right s) ≡ runs keep s
  unfolding runs trim_right
  runs-trim_right [] = refl
  runs-trim_right (c ∷ s) = ground (arith, outside c, runs-trim_right s)

  pub words-trim_space : (s : Str) → words keep (trim_space s) ≡ words keep s
  unfolding words trim_space
  words-trim_space s = ap push (runs-trim_right (trim_left s)) ∙ words-trim_left s

-- Equal tests give equal words.
pub words-congr : (f g : ℕ → Bool) (s : Str) → ((c : ℕ) → f c ≡ g c) → words f s ≡ words g s
unfolding words
words-congr f g s h = ap push (go s)
  where
    go : (s : Str) → runs f s ≡ runs g s
    go [] = refl
    go (c ∷ s) = ground (arith, h c, go s)
