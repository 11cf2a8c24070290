-- ===== src/Stoplist/Schedules.antt =====
-- internal/usecase/stoplist/commands.go: what concurrent commands do to the stop-list in force,
-- whatever the order of their calls.
use wb_trial_task.Common.{
  zero, suc, ◌≡◌, refl, true, false, none, List, [], ◌∷◌, Str, is_empty, ℤ, ◌⊎◌, inl, inr,
  Bool-cases, Sum-cases, All, ℕ,
}
use wb_trial_task.Normalizer.{Unicode, IsUnicode, Service, is_blocked, replace_stop_words}
use wb_trial_task.Normalizer.StopWords.{HasWord, stop_form, IsListed, is_blocked-replace_stop_words}
use wb_trial_task.Stoplist.{StopListStore}
use wb_trial_task.Stoplist.Forms.{stop_form_idem}
use wb_trial_task.Stoplist.Sync.{IsStore, HasWord-IsListed}
use wb_trial_task.Stoplist.Concurrent.{
  Request, adding, removing, Phase, starting, listing, replacing, returned, starting_all, advance,
  written, listed, take_turn, run_schedule,
}

-- A store in which a word stays, and is listed, until it is removed. The words of the calls are in
-- their own form.
pub record IsKeeping (u : Unicode) {S E : Type 0} (store : StopListStore S E) : Type 1 where
  pub Has : Str → S → Type 0
  pub add_keeps : (w x : Str) (st : S) → stop_form u x ≡ x → Has w st → Has w (store.add x st).1
  pub remove_keeps :
      (w x : Str) (st : S)
      → stop_form u x ≡ x
      → (x ≡ w → ⊥)
      → Has w st
      → Has w (store.remove x st).1
  pub list_keeps : (w : Str) (st : S) → Has w st → Has w (store.list st).1
  pub lists :
      (w : Str) (v : ℤ) (words : List Str) (st : S)
      → Has w st
      → (store.list st).0 ≡ inr (words, v)
      → HasWord w words

-- A request that does not remove the word.
abbrev pub Spares : Unicode → Str → Request → Type 0
Spares u w (adding word) = Unit
Spares u w (removing word) = stop_form u word ≡ w → ⊥

module _ (u : Unicode) (std : IsUnicode u) {S E : Type 0} (store : StopListStore S E)
    (laws : IsKeeping u store) (w : Str) (own : stop_form u w ≡ w) (full : is_empty w ≡ false) where
  abbrev PhaseSpares : Phase E → Type 0
  PhaseSpares (starting r) = Spares u w r
  PhaseSpares (listing version) = Unit
  PhaseSpares (replacing version words) = HasWord w words
  PhaseSpares (returned result) = Unit

  -- The word is stored and blocked.
  abbrev Held : S × Service → Type 0
  Held (st, norm) = laws.Has w st × (is_blocked norm.stop_words w ≡ true)

  written-spares : (answer : E ⊎ ℤ) → PhaseSpares (written answer)
  written-spares (inl err) = tt
  written-spares (inr version) = tt

  listed-spares :
      (version : ℤ) (st : S) → laws.Has w st → PhaseSpares (listed version (store.list st).0)
  listed-spares version st has = elim (Sum-cases (store.list st).0) [
    | inl (err, failure) ↦ rw (failure) tt
    | inr ((words, v), given) ↦ rw (given) (laws.lists w v words st has given)
  ]

  advance-Held :
      (p : Phase E) (s : S × Service)
      → PhaseSpares p
      → Held s
      → PhaseSpares (advance u store p s).0 × Held (advance u store p s).1
  unfolding advance
  advance-Held (starting (adding word)) (st, norm) h (has, blocked) =
      elim (Bool-cases (is_empty (stop_form u word))) [
        | inl empty ↦ rw (empty) (tt, (has, blocked))
        | inr given ↦ rw (given) (
          written-spares (store.add (stop_form u word) st).0,
          (laws.add_keeps w (stop_form u word) st (stop_form_idem u std word) has, blocked),
        )
      ]
  advance-Held (starting (removing word)) (st, norm) other (has, blocked) =
      elim (Bool-cases (is_empty (stop_form u word))) [
        | inl empty ↦ rw (empty) (tt, (has, blocked))
        | inr given ↦ rw (given) (
          written-spares (store.remove (stop_form u word) st).0,
          (
            laws.remove_keeps w (stop_form u word) st (stop_form_idem u std word) other has,
            blocked,
          ),
        )
      ]
  advance-Held (listing version) (st, norm) h (has, blocked) =
      (listed-spares version st has, (laws.list_keeps w st has, blocked))
  advance-Held (replacing version words) (st, norm) h (has, blocked) = (
    tt,
    (
      has,
      (is_blocked-replace_stop_words u w words norm).1
          (HasWord-IsListed u store w words own full h),
    ),
  )
  advance-Held (returned result) s h held = (tt, held)

  take_turn-Held :
      (i : ℕ) (clients : List (Phase E)) (s : S × Service)
      → All PhaseSpares clients
      → Held s
      → All PhaseSpares (take_turn u store i (clients, s)).0
        × Held (take_turn u store i (clients, s)).1
  unfolding take_turn
  take_turn-Held i [] s a held = (tt, held)
  take_turn-Held zero (p ∷ clients) s a held =
      let (spares, held') = advance-Held p s a.0 held in ((spares, a.1), held')
  take_turn-Held (suc i) (p ∷ clients) s a held =
      let (spares, held') = take_turn-Held i clients s a.1 held in ((a.0, spares), held')

  run_schedule-Held :
      (turns : List ℕ) (x : List (Phase E) × (S × Service))
      → All PhaseSpares x.0
      → Held x.1
      → Held (run_schedule u store turns x).1
  unfolding run_schedule
  run_schedule-Held [] x a held = held
  run_schedule-Held (i ∷ turns) x a held =
      let (spares, held') = take_turn-Held i x.0 x.1 a held in
      run_schedule-Held turns (take_turn u store i x) spares held'

  All-starting_all :
      (requests : List Request)
      → All (Spares u w) requests
      → All PhaseSpares (starting_all requests)
  All-starting_all [] a = tt
  All-starting_all (r ∷ requests) a = (a.0, All-starting_all requests a.1)

  -- Over a store in which a word stays until it is removed: whatever concurrent commands there are
  -- and in whatever order their calls come, a word that is stored and blocked, and that none of
  -- them removes, is stored and blocked after every number of calls.
  pub spared_word-stays :
      (requests : List Request) (turns : List ℕ) (st : S) (norm : Service)
      → All (Spares u w) requests
      → laws.Has w st
      → is_blocked norm.stop_words w ≡ true
      → let x = run_schedule u store turns (starting_all requests, (st, norm)) in
        laws.Has w x.1.0 × (is_blocked x.1.1.stop_words w ≡ true)
  spared_word-stays requests turns st norm a has blocked =
      run_schedule-Held turns (starting_all requests, (st, norm)) (All-starting_all requests a)
        (has, blocked)

module _ (u : Unicode) (std : IsUnicode u) {S E : Type 0} (store : StopListStore S E)
    (laws : IsStore u store) where
  -- The last to replace the set is the one whose list is the oldest: `Add` of one word lists the
  -- store before another word is added, and tells the normalizer of it after the second `Add` has
  -- returned. Over a store with the laws of `IsStore` both commands then return no error, and the
  -- second word is listed but not blocked, if it was not in the first list.
  pub stale_list-unblocks :
      (first second : Str) (st st₁ st₂ st₃ st₄ : S) (norm : Service) (version version' v v' : ℤ)
      (words words' : List Str)
      → is_empty (stop_form u first) ≡ false
      → is_empty (stop_form u second) ≡ false
      → store.add (stop_form u first) st ≡ (inr version, st₁)
      → store.list st₁ ≡ (inr (words, v), st₂)
      → store.add (stop_form u second) st₂ ≡ (inr version', st₃)
      → store.list st₃ ≡ (inr (words', v'), st₄)
      → (IsListed u (stop_form u second) words → ⊥)
      → let x =
          run_schedule u store
            (0 ∷ 0 ∷ 1 ∷ 1 ∷ 1 ∷ 0 ∷ [])
            (starting_all (adding first ∷ adding second ∷ []), (st, norm)) in
        (x.0 ≡ returned (version, none) ∷ returned (version', none) ∷ [])
        × (x.1.0 ≡ st₄)
        × HasWord (stop_form u second) words'
        × (is_blocked x.1.1.stop_words (stop_form u second) ≡ false)
  unfolding run_schedule take_turn advance
  stale_list-unblocks first second st st₁ st₂ st₃ st₄ norm version version' v v' words words' full
        full' added given added' given' absent =
      let told = replace_stop_words u words' norm in
      let out : is_blocked (replace_stop_words u words told).stop_words (stop_form u second)
          ≡ false =
        elim (Bool-cases
          (is_blocked (replace_stop_words u words told).stop_words (stop_form u second))) [
            | inl blocked ↦ absurd (
                absent
                  ((is_blocked-replace_stop_words u (stop_form u second) words told).0 blocked))
            | inr free ↦ free
          ] in
      rw (full, full', added, given, added', given')
        (
          refl,
          refl,
          laws.add_lists (stop_form u second) version' v' words' st₂ st₃ st₄
              (stop_form_idem u std second) added' given',
          out,
        )
