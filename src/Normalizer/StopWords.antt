-- ===== src/Normalizer/StopWords.antt =====
-- The stop-list in force: what a replacement of the set does to the queries normalized after it.
use wb_trial_task.Common.{
  ◌≡◌, refl, true, false, List, [], ◌∷◌, arith, if◌then◌else◌, Str, Str-discrete, is_empty,
  Bool-cases, inl, inr, ◌⊎◌,
}
use wb_trial_task.Common.Dict.{lookup, insert, lookup-insert}
use wb_trial_task.Normalizer.Text.{
  Unicode, trim_space, StopSet, Service, is_blocked, to_lower, normalize_stop_words_from,
  normalize_stop_words, replace_stop_words,
}

-- The text is a word of the list.
abbrev pub HasWord : Str → List Str → Type 0
HasWord w [] = ⊥
HasWord w (v ∷ ws) = (v ≡ w) ⊎ HasWord w ws

module _ (u : Unicode) where
  -- The form in which a word of the stop-list is compared.
  abbrev pub stop_form : Str → Str
  stop_form word = trim_space (to_lower u word)

  -- An entry of the normalized list: the form of one of the words, and not empty.
  abbrev pub IsListed : Str → List Str → Type 0
  IsListed p [] = ⊥
  IsListed p (w ∷ ws) = ((stop_form w ≡ p) × (is_empty p ≡ false)) ⊎ IsListed p ws

  -- A listed form is that of one of the words.
  pub IsListed-origin :
      (p : Str) (ws : List Str) → IsListed p ws → (w : Str) × HasWord w ws × (stop_form w ≡ p)
  IsListed-origin p [] h = absurd h
  IsListed-origin p (w ∷ ws) (inl (same, ne)) = (w, inl refl, same)
  IsListed-origin p (w ∷ ws) (inr later) =
      let (v, has, same) = IsListed-origin p ws later in (v, inr has, same)

  blocked_stays :
      (p : Str) (ws : List Str) (set : StopSet)
      → is_blocked set p ≡ true
      → is_blocked (normalize_stop_words_from u ws set) p ≡ true
  unfolding normalize_stop_words_from is_blocked
  blocked_stays p [] set h = h
  blocked_stays p (w ∷ ws) set h =
      blocked_stays p ws (if is_empty (stop_form w) then set else insert (stop_form w) tt set)
        (ground (arith, lookup-insert (stop_form w) p tt set))

  listed-blocked :
      (p : Str) (ws : List Str) (set : StopSet)
      → IsListed p ws
      → is_blocked (normalize_stop_words_from u ws set) p ≡ true
  unfolding normalize_stop_words_from is_blocked
  listed-blocked p [] set h = absurd h
  listed-blocked p (w ∷ ws) set (inl (same, ne)) =
      let full : is_empty (stop_form w) ≡ false = rw same ne in
      blocked_stays p ws (if is_empty (stop_form w) then set else insert (stop_form w) tt set)
        (rw full (ground (arith, lookup-insert (stop_form w) p tt set)))
  listed-blocked p (w ∷ ws) set (inr later) =
      listed-blocked p ws (if is_empty (stop_form w) then set else insert (stop_form w) tt set)
        later

  blocked-IsListed :
      (p : Str) (ws : List Str) (set : StopSet)
      → is_blocked (normalize_stop_words_from u ws set) p ≡ true
      → (is_blocked set p ≡ true) ⊎ IsListed p ws
  unfolding normalize_stop_words_from is_blocked
  blocked-IsListed p [] set h = inl h
  blocked-IsListed p (w ∷ ws) set h =
      let set' = if is_empty (stop_form w) then set else insert (stop_form w) tt set in
      elim (blocked-IsListed p ws set' h) [
        | inr later ↦ inr (inr later)
        | inl here ↦ elim (Bool-cases (is_empty (stop_form w))) [
          | inl empty ↦ inl (rw empty at here)
          | inr full ↦ elim (Str-discrete (stop_form w) p) [
            | yes same ↦ inr (inl (same, rw same at full))
            | no other ↦ inl (ground (arith, lookup-insert (stop_form w) p tt set))
          ]
        ]
      ]

  -- After `ReplaceStopWords` a word of a query is blocked exactly if it is the trimmed lower-case
  -- form of a word of the new list, and not empty; the old list plays no part.
  pub is_blocked-replace_stop_words :
      (p : Str) (ws : List Str) (s : Service)
      → (is_blocked (replace_stop_words u ws s).stop_words p ≡ true → IsListed p ws)
        × (IsListed p ws → is_blocked (replace_stop_words u ws s).stop_words p ≡ true)
  unfolding replace_stop_words normalize_stop_words
  is_blocked-replace_stop_words p ws s = (
    λ h. elim (blocked-IsListed p ws [] h) [
      | inl old ↦ absurd (unfold is_blocked lookup in cc)
      | inr listed ↦ listed
    ],
    listed-blocked p ws [],
  )
