-- ===== src/Postgres/Repository.antt =====
-- `Add`, `Remove` and `List`.
use wb_trial_task.Common.{
  zero, suc, none, some, List, [], ◌∷◌, Str, runes, is_empty, ℤ, pos, if◌then◌else◌, ◌⊎◌, inl, inr,
}
use wb_trial_task.Clock.{Time, unix_milli}
use wb_trial_task.Normalizer.{Unicode, trim_space, to_lower}
use wb_trial_task.Postgres.Errors.{
  Rows, Database, RepoError, invalid_argument, already_exists, not_found, failed, commit_failed,
  is_unique_violation,
}

-- `normalizeWord`
abbrev pub normalize_word : Unicode → Str → Str
normalize_word u word = trim_space (to_lower u word)

-- The loop over the rows.
unfoldable pub scan_words : {E : Type 0} → List (E ⊎ Str) → E ⊎ List Str
scan_words [] = inr []
scan_words (inl err ∷ rows) = inl err
scan_words (inr word ∷ rows) =
    let rest = scan_words rows in elim rest [ inl err ↦ inl err | inr words ↦ inr (word ∷ words) ]

module _ {D T E : Type 0} (db : Database D T E) where
  -- `bumpVersion`
  unfoldable pub bump_version : Time → T → (RepoError E ⊎ ℤ) × T
  bump_version now t =
      let (r, t') = db.update_version (unix_milli now) t in
      elim r [
        | some err ↦ (inl (failed (runes "update stop-list version") err), t')
        | none ↦
            let (v, t'') = db.read_version t' in
            elim v [
              | inl err ↦ (inl (failed (runes "read updated stop-list version") err), t'')
              | inr version ↦ (inr version, t'')
            ]
      ]

  -- What `Add` does in its transaction.
  unfoldable pub add_in_tx : Str → Time → T → (RepoError E ⊎ ℤ) × T
  unfolding bump_version
  add_in_tx word now t =
      let (r, t') = db.insert_word word t in
      elim r [
        | none ↦ bump_version now t'
        | some err ↦ (
          inl (
              if is_unique_violation db err
              then already_exists
              else failed (runes "insert stop-word") err),
          t',
        )
      ]

  -- What `Remove` does in its transaction.
  unfoldable pub remove_in_tx : Str → Time → T → (RepoError E ⊎ ℤ) × T
  unfolding bump_version
  remove_in_tx word now t =
      let (r, t') = db.delete_word word t in
      elim r [
        | inl err ↦ (inl (failed (runes "delete stop-word") err), t')
        | inr (inl err) ↦ (inl (failed (runes "rows affected") err), t')
        | inr (inr zero) ↦ (inl not_found, t')
        | inr (inr (suc n)) ↦ bump_version now t'
      ]

  -- The end of a transaction: a commit, or the deferred `Rollback`, which does nothing behind a
  -- commit.
  unfoldable pub finish_tx : Str → (RepoError E ⊎ ℤ) × T → D → (RepoError E ⊎ ℤ) × D
  finish_tx what (inl err, t) d = (inl err, db.rollback t d)
  finish_tx what (inr version, t) d =
      let (r, d') = db.commit t d in
      elim r [ some err ↦ (inl (commit_failed what err), d') | none ↦ (inr version, d') ]

  unfoldable pub in_tx : Str → (T → (RepoError E ⊎ ℤ) × T) → D → (RepoError E ⊎ ℤ) × D
  unfolding finish_tx
  in_tx what body d =
      let (r, d') = db.begin_tx d in
      elim r [
        | inl err ↦ (inl (failed (runes "begin tx") err), d')
        | inr t ↦ finish_tx what (body t) d'
      ]

  -- `List`
  unfoldable pub read_list_version : List Str → D → (RepoError E ⊎ (List Str × ℤ)) × D
  read_list_version words d =
      let (r, d') = db.select_version d in
      elim r [
        | inl err ↦ (inl (failed (runes "read stop-list version") err), d')
        | inr none ↦ (inr (words, pos 0), d')
        | inr (some version) ↦ (inr (words, version), d')
      ]

  unfoldable pub read_rows : Rows E → D → (RepoError E ⊎ (List Str × ℤ)) × D
  unfolding scan_words read_list_version
  read_rows rows d = elim (scan_words rows.scans) [
    | inl err ↦ (inl (failed (runes "scan stop-word") err), d)
    | inr words ↦ elim rows.err [
      | some err ↦ (inl (failed (runes "iterate stop-words") err), d)
      | none ↦ read_list_version words d
    ]
  ]

  unfoldable pub list : D → (RepoError E ⊎ (List Str × ℤ)) × D
  unfolding read_rows
  list d =
      let (r, d') = db.select_words d in
      elim r [
        | inl err ↦ (inl (failed (runes "select stop-words") err), d')
        | inr rows ↦ read_rows rows d'
      ]

  module _ (u : Unicode) where
    unfoldable pub add : Str → Time → D → (RepoError E ⊎ ℤ) × D
    unfolding add_in_tx in_tx
    add word now d =
        let w = normalize_word u word in
        if is_empty w
        then (inl invalid_argument, d)
        else in_tx (runes "commit add stop-word") (add_in_tx w now) d

    unfoldable pub remove : Str → Time → D → (RepoError E ⊎ ℤ) × D
    unfolding remove_in_tx in_tx
    remove word now d =
        let w = normalize_word u word in
        if is_empty w
        then (inl invalid_argument, d)
        else in_tx (runes "commit remove stop-word") (remove_in_tx w now) d
