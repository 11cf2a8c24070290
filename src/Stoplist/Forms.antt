-- ===== src/Stoplist/Forms.antt =====
-- The form of a word in the stop-list is its own form.
use wb_trial_task.Common.{◌≡◌, refl, ap, ◌∙◌, [], ◌∷◌, arith, Str, All}
use wb_trial_task.Normalizer.{Unicode, IsUnicode, trim_space, trim_left, trim_right, to_lower}
use wb_trial_task.Normalizer.StopWords.{stop_form}
use wb_trial_task.Normalizer.Trim.{trim_space_idem}

module _ (u : Unicode) (std : IsUnicode u) where
  abbrev IsLower : Str → Type 0
  IsLower = All (λ c. u.to_lower c ≡ c)

  to_lower-IsLower : (s : Str) → IsLower (to_lower u s)
  to_lower-IsLower [] = tt
  to_lower-IsLower (c ∷ s) = (std.to_lower_idem c, to_lower-IsLower s)

  trim_left-IsLower : (s : Str) → IsLower s → IsLower (trim_left s)
  unfolding trim_left
  trim_left-IsLower [] h = tt
  trim_left-IsLower (c ∷ s) h = ground (arith, trim_left-IsLower s h.1)

  trim_right-IsLower : (s : Str) → IsLower s → IsLower (trim_right s)
  unfolding trim_right
  trim_right-IsLower [] h = tt
  trim_right-IsLower (c ∷ s) h = ground (arith, trim_right-IsLower s h.1)

  IsLower-to_lower : (s : Str) → IsLower s → to_lower u s ≡ s
  IsLower-to_lower [] h = refl
  IsLower-to_lower (c ∷ s) h = rw (h.0, IsLower-to_lower s h.1) refl

  pub stop_form_idem : (word : Str) → stop_form u (stop_form u word) ≡ stop_form u word
  unfolding trim_space
  stop_form_idem word =
      let lower : IsLower (stop_form u word) =
        trim_right-IsLower (trim_left (to_lower u word))
          (trim_left-IsLower (to_lower u word) (to_lower-IsLower word)) in
      ap trim_space (IsLower-to_lower (stop_form u word) lower) ∙ trim_space_idem (to_lower u word)
