-- ===== src/Postgres/Store.antt =====
-- The repository as the store of the stop-list commands.
use wb_trial_task.Common.{
  ◌≡◌, refl, sym, ◌∙◌, true, false, none, some, List, [], ◌∷◌, runes, Str, Str-discrete, ℤ, ◌⊎◌,
  inl, inr, Option-cases, Sum-cases, answers, arith, All, if_pos, if_neg,
}
use wb_trial_task.Clock.{Time}
use wb_trial_task.Normalizer.StopWords.{HasWord, stop_form}
use wb_trial_task.Normalizer.{Unicode, IsUnicode, Service, is_blocked}
use wb_trial_task.Stoplist.{StopListStore, add_word, remove_word}
use wb_trial_task.Stoplist.Forms.{stop_form_idem}
use wb_trial_task.Stoplist.Sync.{IsStore, add_word-blocks, remove_word-unblocks}
use wb_trial_task.Postgres.Errors.{Rows, Database, RepoError, failed}
use wb_trial_task.Postgres.Repository.{
  normalize_word, scan_words, read_list_version, read_rows, list, add, remove,
}
use wb_trial_task.Postgres.Tables.{Tables, IsPostgres}
use wb_trial_task.Postgres.Refinement.{
  Command, Outcome, Outcome-applied, applied, adding, removing, repository-Refines,
}

abbrev pub repository_store :
    {D T E : Type 0} → Database D T E → Unicode → Time → StopListStore D (RepoError E)
repository_store db u now = record {
  add = λ w d. add db u w now d;
  remove = λ w d. remove db u w now d;
  list = λ d. list db d;
}

-- The stored words are in their own form.
abbrev pub InForm : Unicode → Tables → Type 0
InForm u t = (x : Str) → t.has_word x ≡ true → stop_form u x ≡ x

module _ (u : Unicode) (std : IsUnicode u) {D T E : Type 0} (db : Database D T E)
    (tables : D → Tables) (view : T → Tables) (laws : IsPostgres db tables view) (now : Time) where
  HasWord-All :
      (P : Str → Type 0) (words : List Str) → ((x : Str) → HasWord x words → P x) → All P words
  HasWord-All P [] h = tt
  HasWord-All P (y ∷ words) h = (h y (inl refl), HasWord-All P words (λ x has. h x (inr has)))

  -- A list without an error, by its rows.
  pub record Listing (words : List Str) (d : D) : Type 0 where
    pub rows : Rows E
    pub d' : D
    pub selected : db.select_words d ≡ (inr rows, d')
    pub scanned : scan_words rows.scans ≡ inr words
    pub ended : rows.err ≡ none

  list_words-same :
      (words' : List Str) (d : D) (v : ℤ) (words : List Str) (d₂ : D)
      → read_list_version db words' d ≡ (inr (words, v), d₂)
      → words ≡ words'
  unfolding read_list_version
  list_words-same words' d v words d₂ h = elim (Sum-cases (db.select_version d).0) [
    | inl (err, failure) ↦ absurd (ground (arith, failure))
    | inr (none, given) ↦ ground (arith, given)
    | inr (some version, given) ↦ ground (arith, given)
  ]

  pub list-failed :
      (d : D) (err : RepoError E)
      → (list db d).0 ≡ inl err
      → (what : Str) × (cause : E) × (err ≡ failed what cause)
  unfolding list read_rows read_list_version
  list-failed d err h = elim (Sum-cases (db.select_words d).0) [
    | inl (cause, failure) ↦ (runes "select stop-words", cause, ground (arith, failure))
    | inr (rows, selected) ↦ elim (Sum-cases (scan_words rows.scans)) [
      | inl (cause, failure) ↦ (runes "scan stop-word", cause, ground (arith, selected, failure))
      | inr (words, scanned) ↦ elim (Option-cases rows.err) [
        | inr (cause, failure) ↦
            (runes "iterate stop-words", cause, ground (arith, selected, scanned, failure))
        | inl ended ↦ elim (Sum-cases (db.select_version (db.select_words d).1).0) [
          | inl (cause, failure) ↦ (
            runes "read stop-list version",
            cause,
            ground (arith, selected, scanned, ended, failure),
          )
          | inr (none, given) ↦ absurd (ground (arith, selected, scanned, ended, given))
          | inr (some version, given) ↦ absurd (ground (arith, selected, scanned, ended, given))
        ]
      ]
    ]
  ]

  pub list-Listing :
      (v : ℤ) (words : List Str) (d d₂ : D) → list db d ≡ (inr (words, v), d₂) → Listing words d
  unfolding list read_rows read_list_version
  list-Listing v words d d₂ h = elim (Sum-cases (db.select_words d).0) [
    | inl (err, failure) ↦ absurd (ground (arith, failure))
    | inr (rows, selected) ↦ elim (Sum-cases (scan_words rows.scans)) [
      | inl (err, failure) ↦ absurd (ground (arith, selected, failure))
      | inr (scanned_words, scanned) ↦ elim (Option-cases rows.err) [
        | inr (err, failure) ↦ absurd (ground (arith, selected, scanned, failure))
        | inl ended ↦
            let e : words ≡ scanned_words =
              list_words-same scanned_words (db.select_words d).1 v words d₂
                (rw (scanned, ended, read_rows) at (rw (selected, list) at h)) in
            record {
              rows = rows;
              d' = (db.select_words d).1;
              selected = answers (db.select_words d) (inr rows) selected;
              scanned = rw (e) scanned;
              ended = ended;
            }
      ]
    ]
  ]

  pub has_word-applied :
      (c : Command) (w x : Str) (t : Tables)
      → (x ≡ w → ⊥)
      → (applied c w t).has_word x ≡ t.has_word x
  has_word-applied adding w x t other = rw (if_neg (Str-discrete x w) other) refl
  has_word-applied removing w x t other = rw (if_neg (Str-discrete x w) other) refl

  applied-InForm :
      (c : Command) (w : Str) (t : Tables)
      → stop_form u w ≡ w
      → InForm u t
      → InForm u (applied c w t)
  applied-InForm c w t own h x stored = elim (Str-discrete x w) [
    | yes same ↦ rw (same) own
    | no other ↦ h x (sym (has_word-applied c w x t other) ∙ stored)
  ]

  command-InForm :
      (c : Command) (word : Str) (old new : Tables) (r : RepoError E ⊎ ℤ)
      → Outcome c (normalize_word u word) old r new
      → InForm u old
      → InForm u new
  command-InForm c word old new r o h =
      elim (Outcome-applied c (normalize_word u word) old new r o) [
        | inl same ↦ rw (same) h
        | inr done ↦
            rw (done) (applied-InForm c (normalize_word u word) old (stop_form_idem u std word) h)
      ]

  -- Over a PostgreSQL database each command of the repository keeps the stored words in the form
  -- in which the normalizer compares them.
  pub repository-InForm :
      (word : Str) (d : D)
      → InForm u (tables d)
      → InForm u (tables (add db u word now d).1) × InForm u (tables (remove db u word now d).1)
  repository-InForm word d good =
      let o = repository-Refines db tables view laws u word now d in
      (
        command-InForm adding word (tables d) (tables (add db u word now d).1)
            (add db u word now d).0 o.0 good,
        command-InForm removing word (tables d) (tables (remove db u word now d).1)
            (remove db u word now d).0 o.1 good,
      )

  added_stored :
      (w : Str) (version : ℤ) (d d₁ : D)
      → stop_form u w ≡ w
      → add db u w now d ≡ (inr version, d₁)
      → (tables d₁).has_word w ≡ true
  unfolding Outcome
  added_stored w version d d₁ own added =
      let o = rw (own, added) at (repository-Refines db tables view laws u w now d).0 in
      rw (o.1, if_pos (Str-discrete w w) refl) refl

  removed_gone :
      (w : Str) (version : ℤ) (d d₁ : D)
      → stop_form u w ≡ w
      → remove db u w now d ≡ (inr version, d₁)
      → (tables d₁).has_word w ≡ false
  unfolding Outcome
  removed_gone w version d d₁ own removed =
      let o = rw (own, removed) at (repository-Refines db tables view laws u w now d).1 in
      rw (o.1, if_pos (Str-discrete w w) refl) refl

  -- Over a PostgreSQL database whose words are in their own form the repository is a store as the
  -- commands rely on.
  pub repository_store-IsStore : IsStore u (repository_store db u now)
  repository_store-IsStore = record {
    Good = λ d. InForm u (tables d);
    add_Good = λ w d good. (repository-InForm w d good).0;
    remove_Good = λ w d good. (repository-InForm w d good).1;
    add_lists = λ w version v words d d₁ d₂ own added listed.
        let l = list-Listing v words d₁ d₂ listed in
        laws.select_complete l.rows words d₁ l.d' w l.selected l.scanned l.ended
          (added_stored w version d d₁ own added);
    remove_unlists = λ w version v words d d₁ d₂ own removed listed h.
        let l = list-Listing v words d₁ d₂ listed in
        let stored = laws.select_sound l.rows words d₁ l.d' w l.selected l.scanned l.ended h in
        let gone = removed_gone w version d d₁ own removed in cc;
    listed_forms = λ v words d d₂ good listed.
        let l = list-Listing v words d d₂ listed in
        HasWord-All (λ x. stop_form u x ≡ x) words
          (λ x has.
            good x (laws.select_sound l.rows words d l.d' x l.selected l.scanned l.ended has));
  }

  -- Over a PostgreSQL database whose stored words are in their own form: when `Add` (or `Remove`)
  -- of the commands returns no error, the normalizer blocks (does not block) the word's form.
  pub commands-InForce :
      (word : Str) (s : D × Service)
      → InForm u (tables s.0)
      → let store = repository_store db u now in
        let added = add_word u store true word s in
        let removed = remove_word u store true word s in
        (added.0.1 ≡ none → is_blocked added.1.1.stop_words (stop_form u word) ≡ true)
        × (removed.0.1 ≡ none → is_blocked removed.1.1.stop_words (stop_form u word) ≡ false)
  unfolding repository_store-IsStore
  commands-InForce word s good = (
    λ h. add_word-blocks u std (repository_store db u now) repository_store-IsStore word s h,
    λ h.
        remove_word-unblocks u std (repository_store db u now) repository_store-IsStore word s good
          h,
  )
