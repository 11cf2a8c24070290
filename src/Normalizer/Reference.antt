-- ===== src/Normalizer/Reference.antt =====
-- `Normalize` against its specification: the lower-cased words of the text that are not blocked.
use wb_trial_task.Common.{
  ℕ, ◌≡◌, refl, sym, ◌∙◌, true, false, not, none, some, List, [], ◌∷◌, arith, if◌then◌else◌, ltb,
  Str, is_empty, Bool-cases, inl, inr, length,
}
use wb_trial_task.Normalizer.Text.{
  is_space, matches_space, Unicode, IsUnicode, is_word, trim_space, replace_runs, runs, words,
  fields, join, StopSet, Service, drop_blocked, to_lower, is_other, clean_text, normalize,
}
use wb_trial_task.Normalizer.Words.{keep_but, words-replace_runs, words-trim_space, words-congr}

pub matches_space-is_space : (c : ℕ) → matches_space c ≡ true → is_space c ≡ true
unfolding matches_space is_space
matches_space-is_space c h = ground arith

space_kept : (λ (c : ℕ). not (is_space c)) 0x20 ≡ false
unfolding is_space
space_kept = refl

space_kept_but : keep_but (λ c. not (is_space c)) matches_space 0x20 ≡ false
unfolding is_space matches_space
space_kept_but = refl

module _ (u : Unicode) (std : IsUnicode u) where
  -- The words of a text: the runs of letters and numbers of its lower-cased form.
  abbrev pub tokens : Str → List Str
  tokens raw = words (is_word u) (to_lower u raw)

  kept_word :
      (c : ℕ)
      → keep_but (keep_but (λ c. not (is_space c)) matches_space) (is_other u) c ≡ is_word u c
  kept_word c = ground (arith, std.space_not_word c, matches_space-is_space c)

  pub fields-clean_text : (raw : Str) → fields (clean_text u raw) ≡ tokens raw
  unfolding fields clean_text
  fields-clean_text raw =
      let text = trim_space (to_lower u raw) in
      words-replace_runs (λ c. not (is_space c)) matches_space 0x20 space_kept
        (replace_runs (is_other u) 0x20 false text)
      ∙ (words-replace_runs (keep_but (λ c. not (is_space c)) matches_space) (is_other u) 0x20
            space_kept_but text
          ∙ (words-congr _ (is_word u) text kept_word
              ∙ words-trim_space (is_word u) std.space_not_word (to_lower u raw)))

  fields-empty : (q : Str) → is_empty q ≡ true → fields q ≡ []
  unfolding fields words runs
  fields-empty [] h = refl
  fields-empty (c ∷ q) h = cc

  short_nil : (stop : StopSet) → ltb (length (join (drop_blocked stop []))) 2 ≡ true
  unfolding drop_blocked join
  short_nil stop = refl

  -- `Normalize` is exactly this: the words that are not blocked, joined by single spaces, and the
  -- error where that has fewer than two runes. In particular the check for an empty text in the
  -- middle changes nothing.
  pub normalize-reference :
      (s : Service) (raw : Str)
      → normalize u s raw ≡ (
          let q = join (drop_blocked s.stop_words (tokens raw)) in
          if ltb (length q) 2 then none else some q)
  unfolding normalize
  normalize-reference s raw = elim (Bool-cases (is_empty (clean_text u raw))) [
    | inl empty ↦
        let no_words : tokens raw ≡ [] =
          sym (fields-clean_text raw) ∙ fields-empty (clean_text u raw) empty in
        rw (empty, no_words) (rw (short_nil s.stop_words) refl)
    | inr full ↦ rw (full, fields-clean_text raw) refl
  ]
