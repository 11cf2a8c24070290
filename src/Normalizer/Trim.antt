-- ===== src/Normalizer/Trim.antt =====
-- `strings.TrimSpace` leaves nothing to trim.
use wb_trial_task.Common.{◌≡◌, refl, ap, ◌∙◌, false, [], ◌∷◌, arith, Str, All}
use wb_trial_task.Normalizer.Text.{trim_space, trim_left, trim_right, is_space}

-- The text does not begin with white space.
abbrev pub StartsFull : Str → Type 0
StartsFull [] = Unit
StartsFull (c ∷ s) = is_space c ≡ false

trim_left-StartsFull : (s : Str) → StartsFull (trim_left s)
unfolding trim_left
trim_left-StartsFull [] = tt
trim_left-StartsFull (c ∷ s) = ground (arith, trim_left-StartsFull s)

trim_left_full : (s : Str) → StartsFull s → trim_left s ≡ s
unfolding trim_left
trim_left_full [] h = refl
trim_left_full (c ∷ s) h = rw h refl

trim_right-StartsFull : (s : Str) → StartsFull s → StartsFull (trim_right s)
unfolding trim_right
trim_right-StartsFull [] h = tt
trim_right-StartsFull (c ∷ s) h = ground arith

trim_right_idem : (s : Str) → trim_right (trim_right s) ≡ trim_right s
unfolding trim_right
trim_right_idem [] = refl
trim_right_idem (c ∷ s) = ground (arith, trim_right_idem s)

pub trim_space_idem : (s : Str) → trim_space (trim_space s) ≡ trim_space s
unfolding trim_space
trim_space_idem s =
    ap trim_right (
      trim_left_full (trim_right (trim_left s))
        (trim_right-StartsFull (trim_left s) (trim_left-StartsFull s)))
    ∙ trim_right_idem (trim_left s)

-- A text without white space is left as it is.
pub trim_space_plain : (s : Str) → All (λ c. is_space c ≡ false) s → trim_space s ≡ s
unfolding trim_space
trim_space_plain s h = ap trim_right (trim_left_plain s h) ∙ trim_right_plain s h
  where
    trim_left_plain : (s : Str) → All (λ c. is_space c ≡ false) s → trim_left s ≡ s
    trim_left_plain [] h = unfold trim_left in refl
    trim_left_plain (c ∷ s) h = trim_left_full (c ∷ s) h.0

    trim_right_plain : (s : Str) → All (λ c. is_space c ≡ false) s → trim_right s ≡ s
    trim_right_plain [] h = unfold trim_right in refl
    trim_right_plain (c ∷ s) h = unfold trim_right in ground (arith, trim_right_plain s h.1)
