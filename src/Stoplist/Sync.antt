-- ===== src/Stoplist/Sync.antt =====
-- The commands keep the normalizer in step with the stored stop-list.
use wb_trial_task.Common.{
  ◌≡◌, refl, sym, ap, ◌∙◌, Bool, true, false, none, List, [], ◌∷◌, arith, Str, is_empty, ℤ, All,
  Bool-cases, Sum-cases, Option, some, inl, inr, ◌⊎◌,
}
use wb_trial_task.Normalizer.{Unicode, IsUnicode, Service, is_blocked, replace_stop_words}
use wb_trial_task.Normalizer.StopWords.{HasWord, stop_form, IsListed, is_blocked-replace_stop_words}
use wb_trial_task.Stoplist.{
  StopListStore, CommandError, store_error, sync, finish_command, add_word, remove_word,
}
use wb_trial_task.Stoplist.Forms.{stop_form_idem}

-- What the service relies on in its store: a word that was added without an error is listed, one
-- that was removed is not, and the words of a list are in their own form in the states `Good`,
-- which the commands keep.
pub record IsStore (u : Unicode) {S E : Type 0} (store : StopListStore S E) : Type 1 where
  pub Good : S → Type 0
  pub add_Good : (w : Str) (st : S) → Good st → Good (store.add w st).1
  pub remove_Good : (w : Str) (st : S) → Good st → Good (store.remove w st).1
  pub add_lists :
      (w : Str) (version v : ℤ) (words : List Str) (st st₁ st₂ : S)
      → stop_form u w ≡ w
      → store.add w st ≡ (inr version, st₁)
      → store.list st₁ ≡ (inr (words, v), st₂)
      → HasWord w words
  pub remove_unlists :
      (w : Str) (version v : ℤ) (words : List Str) (st st₁ st₂ : S)
      → stop_form u w ≡ w
      → store.remove w st ≡ (inr version, st₁)
      → store.list st₁ ≡ (inr (words, v), st₂)
      → HasWord w words
      → ⊥
  pub listed_forms :
      (v : ℤ) (words : List Str) (st st₂ : S)
      → Good st
      → store.list st ≡ (inr (words, v), st₂)
      → All (λ x. stop_form u x ≡ x) words

module _ (u : Unicode) {S E : Type 0} (store : StopListStore S E) where
  -- After a command without an error the normalizer has the words that the store then lists.
  record Synced (r : (E ⊎ ℤ) × S) (norm norm' : Service) : Type 0 where
    version : ℤ
    listed_version : ℤ
    words : List Str
    st₁ : S
    st₂ : S
    answered : r ≡ (inr version, st₁)
    listed : store.list st₁ ≡ (inr (words, listed_version), st₂)
    told : norm' ≡ replace_stop_words u words norm

  list_cases :
      (x : (E ⊎ (List Str × ℤ)) × S)
      → ((err : E) × (st : S) × (x ≡ (inl err, st)))
        ⊎ ((words : List Str) × (v : ℤ) × (st : S) × (x ≡ (inr (words, v), st)))
  list_cases (inl err, st) = inl (err, st, refl)
  list_cases (inr (words, v), st) = inr (words, v, st, refl)

  finish_command-Synced :
      (r : (E ⊎ ℤ) × S) (norm : Service)
      → (finish_command u store true r norm).0.1 ≡ none
      → Synced r norm (finish_command u store true r norm).1.1
  unfolding finish_command
  finish_command-Synced (inl err, st) norm h = cc
  finish_command-Synced (inr version, st) norm h = elim (list_cases (store.list st)) [
    | inl (err, st₂, failed) ↦ absurd (ground arith)
    | inr (words, v, st₂, listed) ↦ record {
      version = version;
      listed_version = v;
      words = words;
      st₁ = st;
      st₂ = st₂;
      answered = refl;
      listed = listed;
      told = ground arith;
    }
  ]

  finish_command-Kept :
      (has_updater : Bool) (r : (E ⊎ ℤ) × S) (norm : Service)
      → ((finish_command u store has_updater r norm).0.1 ≡ none)
        ⊎ ((finish_command u store has_updater r norm).1.1 ≡ norm)
  unfolding finish_command
  finish_command-Kept has_updater (inl err, st) norm = inr refl
  finish_command-Kept has_updater (inr version, st) norm = elim (list_cases (store.list st)) [
    | inl (err, st₂, failed) ↦ ground arith
    | inr (words, v, st₂, listed) ↦ ground arith
  ]

  -- What a command's error, or its absence, says of the store's answers.
  abbrev pub Answered : (E ⊎ ℤ) × S → Option (CommandError E) → Type 0
  Answered r o =
      ((o ≡ none) × (v : ℤ) × (r.0 ≡ inr v))
      ⊎ ((err : E) × (o ≡ some (store_error err))
          × ((r.0 ≡ inl err) ⊎ ((store.list r.1).0 ≡ inl err)))

  finish_command-Answered :
      (has_updater : Bool) (r : (E ⊎ ℤ) × S) (norm : Service)
      → Answered r (finish_command u store has_updater r norm).0.1
  unfolding finish_command sync
  finish_command-Answered has_updater (inl err, st) norm = inr (err, refl, inl refl)
  finish_command-Answered false (inr version, st) norm = inl (refl, version, refl)
  finish_command-Answered true (inr version, st) norm = elim (Sum-cases (store.list st).0) [
    | inl (err, failure) ↦ inr (err, rw (failure, sync) refl, inr failure)
    | inr (answer, listed) ↦ inl (rw (listed, sync) refl, version, refl)
  ]

  pub command-Answered :
      (has_updater : Bool) (word : Str) (s : S × Service)
      → is_empty (stop_form u word) ≡ false
      → Answered (store.add (stop_form u word) s.0) (add_word u store has_updater word s).0.1
        × Answered
            (store.remove (stop_form u word) s.0)
            (remove_word u store has_updater word s).0.1
  unfolding add_word remove_word
  command-Answered has_updater word s full =
      rw (full, add_word, remove_word)
        (
          finish_command-Answered has_updater (store.add (stop_form u word) s.0) s.1,
          finish_command-Answered has_updater (store.remove (stop_form u word) s.0) s.1,
        )

  -- A command that returns an error leaves the normalizer's stop-list as it was.
  pub failed_command-Kept :
      (has_updater : Bool) (word : Str) (s : S × Service)
      → (((add_word u store has_updater word s).0.1 ≡ none)
          ⊎ ((add_word u store has_updater word s).1.1 ≡ s.1))
        × (((remove_word u store has_updater word s).0.1 ≡ none)
            ⊎ ((remove_word u store has_updater word s).1.1 ≡ s.1))
  unfolding add_word remove_word
  failed_command-Kept has_updater word s = ground (
    arith,
    finish_command-Kept has_updater (store.add (stop_form u word) s.0) s.1,
    finish_command-Kept has_updater (store.remove (stop_form u word) s.0) s.1,
  )

  pub HasWord-IsListed :
      (w : Str) (words : List Str)
      → stop_form u w ≡ w
      → is_empty w ≡ false
      → HasWord w words
      → IsListed u w words
  HasWord-IsListed w [] own full h = absurd h
  HasWord-IsListed w (x ∷ words) own full (inl here) = inl (rw here own, full)
  HasWord-IsListed w (x ∷ words) own full (inr later) =
      inr (HasWord-IsListed w words own full later)

  IsListed-HasWord :
      (w : Str) (words : List Str)
      → All (λ x. stop_form u x ≡ x) words
      → IsListed u w words
      → HasWord w words
  IsListed-HasWord w [] own h = absurd h
  IsListed-HasWord w (x ∷ words) own (inl (here, full)) = inl (sym own.0 ∙ here)
  IsListed-HasWord w (x ∷ words) own (inr later) = inr (IsListed-HasWord w words own.1 later)

module _ (u : Unicode) (std : IsUnicode u) {S E : Type 0} (store : StopListStore S E)
    (laws : IsStore u store) (word : Str) (s : S × Service) where
  -- Over a store with the laws above, when `Add` returns no error, the normalizer blocks the word's
  -- form.
  pub add_word-blocks :
      (add_word u store true word s).0.1 ≡ none
      → is_blocked (add_word u store true word s).1.1.stop_words (stop_form u word) ≡ true
  unfolding add_word
  add_word-blocks h = elim (Bool-cases (is_empty (stop_form u word))) [
    | inl empty ↦ absurd (ground arith)
    | inr full ↦
        let w = stop_form u word in
        let c = finish_command-Synced u store (store.add w s.0) s.1 (rw (full, add_word) at h) in
        let own : stop_form u w ≡ w = stop_form_idem u std word in
        let listed : IsListed u w c.words = HasWord-IsListed u store w c.words own full (
          laws.add_lists w c.version c.listed_version c.words s.0 c.st₁ c.st₂ own c.answered
            c.listed) in
        rw (full, add_word, c.told) ((is_blocked-replace_stop_words u w c.words s.1).1 listed)
  ]

  -- Over a store with the laws above and in a good state, when `Remove` returns no error, the
  -- normalizer does not block the word's form.
  pub remove_word-unblocks :
      laws.Good s.0
      → (remove_word u store true word s).0.1 ≡ none
      → is_blocked (remove_word u store true word s).1.1.stop_words (stop_form u word) ≡ false
  unfolding remove_word
  remove_word-unblocks good h = elim (Bool-cases (is_empty (stop_form u word))) [
    | inl empty ↦ absurd (ground arith)
    | inr full ↦
        let w = stop_form u word in
        let c =
          finish_command-Synced u store (store.remove w s.0) s.1 (rw (full, remove_word) at h) in
        let own : stop_form u w ≡ w = stop_form_idem u std word in
        elim (Bool-cases (is_blocked (replace_stop_words u c.words s.1).stop_words w)) [
          | inr out ↦ rw (full, remove_word, c.told) out
          | inl in_force ↦ absurd (
              laws.remove_unlists w c.version c.listed_version c.words s.0 c.st₁ c.st₂ own
                c.answered c.listed
                (IsListed-HasWord u store w c.words
                  (laws.listed_forms c.listed_version c.words c.st₁ c.st₂
                    (rw (ap (λ x. x.1) c.answered) at (laws.remove_Good w s.0 good)) c.listed)
                  ((is_blocked-replace_stop_words u w c.words s.1).0 in_force)))
        ]
  ]
