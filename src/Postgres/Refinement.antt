-- ===== src/Postgres/Refinement.antt =====
-- The repository's commands against the tables: each refines one atomic step.
use wb_trial_task.Common.{
  ◌≡◌, refl, sym, ap, ◌∙◌, Bool, true, false, none, some, Str, ℤ, is_empty, runes, ◌⊎◌, inl, inr,
  Bool-cases, zero, suc, Option-cases, Sum-cases, answers,
}
use wb_trial_task.Clock.{Time, unix_milli}
use wb_trial_task.Normalizer.{Unicode}
use wb_trial_task.Postgres.Errors.{
  Database, RepoError, invalid_argument, already_exists, not_found, failed, commit_failed,
  dsn_is_empty, is_unique_violation,
}
use wb_trial_task.Postgres.Repository.{
  normalize_word, bump_version, add_in_tx, remove_in_tx, finish_tx, in_tx, add, remove,
}
use wb_trial_task.Postgres.Tables.{Tables, with_word, without_word, next_version, IsPostgres}

-- What the repository promises: with the precondition `applies` (and `refused`, the error for
-- when it does not hold) the answer is the new version and the tables are `new`; with an error
-- they are as they were, but for a failed commit, which may have happened.
pub data Command : Type 0 where
  adding removing : Command

abbrev pub applied : Command → Str → Tables → Tables
applied adding w t = next_version (with_word w t)
applied removing w t = next_version (without_word w t)

abbrev is_stored_before : Command → Bool
is_stored_before adding = false
is_stored_before removing = true

unfoldable pub Outcome : {E : Type 0} → Command → Str → Tables → RepoError E ⊎ ℤ → Tables → Type 0
Outcome c w old (inr version) new =
    (old.has_word w ≡ is_stored_before c) × (new ≡ applied c w old) × (version ≡ new.version)
Outcome c w old (inl invalid_argument) new = (is_empty w ≡ true) × (new ≡ old)
Outcome adding w old (inl already_exists) new = (old.has_word w ≡ true) × (new ≡ old)
Outcome removing w old (inl already_exists) new = ⊥
Outcome adding w old (inl not_found) new = ⊥
Outcome removing w old (inl not_found) new = (old.has_word w ≡ false) × (new ≡ old)
Outcome c w old (inl (failed what err)) new = new ≡ old
Outcome c w old (inl (commit_failed what err)) new = (new ≡ old) ⊎ (new ≡ applied c w old)
Outcome c w old (inl dsn_is_empty) new = ⊥

-- Every outcome leaves the tables as they were, or applies the command.
pub Outcome-applied :
    {E : Type 0} (c : Command) (w : Str) (old new : Tables) (r : RepoError E ⊎ ℤ)
    → Outcome c w old r new
    → (new ≡ old) ⊎ (new ≡ applied c w old)
unfolding Outcome
Outcome-applied c w old new (inr version) h = inr h.1
Outcome-applied c w old new (inl invalid_argument) h = inl h.1
Outcome-applied adding w old new (inl already_exists) h = inl h.1
Outcome-applied removing w old new (inl already_exists) h = absurd h
Outcome-applied adding w old new (inl not_found) h = absurd h
Outcome-applied removing w old new (inl not_found) h = inl h.1
Outcome-applied c w old new (inl (failed what err)) h = inl h
Outcome-applied c w old new (inl (commit_failed what err)) h = h
Outcome-applied c w old new (inl dsn_is_empty) h = absurd h

module _ {D T E : Type 0} (db : Database D T E) (tables : D → Tables) (view : T → Tables)
    (laws : IsPostgres db tables view) where
  -- What the body of a transaction has done, before the commit.
  InTx : Command → Str → Tables → (RepoError E ⊎ ℤ) × T → Type 0
  InTx c w old (inl err, t) = Outcome c w old (inl err) old
  InTx c w old (inr version, t) =
      (old.has_word w ≡ is_stored_before c)
      × (view t ≡ applied c w old)
      × (version ≡ (view t).version)

  finish_tx-Outcome :
      (c : Command) (w what : Str) (x : (RepoError E ⊎ ℤ) × T) (d : D)
      → InTx c w (tables d) x
      → Outcome c w (tables d) (finish_tx db what x d).0 (tables (finish_tx db what x d).1)
  unfolding finish_tx Outcome InTx
  finish_tx-Outcome c w what (inl err, t) d h = rw (laws.rollback_same t d) h
  finish_tx-Outcome c w what (inr version, t) d h = elim (Option-cases (db.commit t d).0) [
    | inl done ↦
        let e = laws.commit_writes t d (db.commit t d).1 (answers (db.commit t d) none done) in
        rw (done, finish_tx) (h.0, e ∙ h.1, h.2 ∙ sym (ap (λ x. x.version) e))
    | inr (err, failure) ↦
        let e =
          laws.commit_unknown err t d (db.commit t d).1
            (answers (db.commit t d) (some err) failure) in
        rw (failure, finish_tx) (elim e [ inl kept ↦ inl kept | inr written ↦ inr (written ∙ h.1) ])
  ]

  in_tx-Outcome :
      (c : Command) (w what : Str) (body : T → (RepoError E ⊎ ℤ) × T) (d : D)
      → ((t : T) → view t ≡ tables d → InTx c w (tables d) (body t))
      → Outcome c w (tables d) (in_tx db what body d).0 (tables (in_tx db what body d).1)
  unfolding in_tx Outcome
  in_tx-Outcome c w what body d h = elim (Sum-cases (db.begin_tx d).0) [
    | inl (err, failure) ↦ rw (failure, in_tx) (laws.begin_same d)
    | inr (t, begun) ↦
        let d' = (db.begin_tx d).1 in
        let same = laws.begin_same d in
        let seen = laws.begin_view d d' t (answers (db.begin_tx d) (inr t) begun) in
        let o = finish_tx-Outcome c w what (body t) d' (rw (same) (h t seen)) in
        rw (begun, in_tx) (rw (same) at o)
  ]

  bump_version-InTx :
      (c : Command) (w : Str) (now : Time) (old : Tables) (t : T)
      → old.has_word w ≡ is_stored_before c
      → next_version (view t) ≡ applied c w old
      → InTx c w old (bump_version db now t)
  unfolding bump_version InTx Outcome
  bump_version-InTx c w now old t before e =
      elim (Option-cases (db.update_version (unix_milli now) t).0) [
        | inr (err, failure) ↦ rw (failure, bump_version) refl
        | inl done ↦
            let t' = (db.update_version (unix_milli now) t).1 in
            let bumped =
              laws.update_bumps (unix_milli now) t t'
                (answers (db.update_version (unix_milli now) t) none done) in
            elim (Sum-cases (db.read_version t').0) [
              | inl (err, failure) ↦ rw (done, failure, bump_version) refl
              | inr (version, gives) ↦
                  let given =
                    laws.read_gives version t' (db.read_version t').1
                      (answers (db.read_version t') (inr version) gives) in
                  let kept = laws.read_same t' in
                  rw (done, gives, bump_version)
                    (before, kept ∙ bumped ∙ e, given ∙ sym (ap (λ x. x.version) kept))
            ]
      ]

  add_in_tx-InTx :
      (w : Str) (now : Time) (old : Tables) (t : T)
      → view t ≡ old
      → InTx adding w old (add_in_tx db w now t)
  unfolding add_in_tx InTx Outcome
  add_in_tx-InTx w now old t seen =
      let t' = (db.insert_word w t).1 in
      elim (Option-cases (db.insert_word w t).0) [
        | inl done ↦
            let q = answers (db.insert_word w t) none done in
            let absent = ap (λ x. x.has_word w) (sym seen) ∙ laws.insert_absent w t t' q in
            let added = laws.insert_adds w t t' q ∙ ap (with_word w) seen in
            rw (done, add_in_tx)
              (bump_version-InTx adding w now old t' absent (ap next_version added))
        | inr (err, failure) ↦ elim (Bool-cases (is_unique_violation db err)) [
          | inl unique ↦
              let stored =
                laws.insert_present w err t t' (answers (db.insert_word w t) (some err) failure)
                  unique in
              rw (failure, unique, add_in_tx) (ap (λ x. x.has_word w) (sym seen) ∙ stored, refl)
          | inr other ↦ rw (failure, other, add_in_tx) refl
        ]
      ]

  remove_in_tx-InTx :
      (w : Str) (now : Time) (old : Tables) (t : T)
      → view t ≡ old
      → InTx removing w old (remove_in_tx db w now t)
  unfolding remove_in_tx InTx Outcome
  remove_in_tx-InTx w now old t seen =
      let t' = (db.delete_word w t).1 in
      let before = ap (λ x. x.has_word w) (sym seen) in
      elim (Sum-cases (db.delete_word w t).0) [
        | inl (err, failure) ↦ rw (failure, remove_in_tx) refl
        | inr (inl err, failure) ↦ rw (failure, remove_in_tx) refl
        | inr (inr zero, done) ↦
            let q = answers (db.delete_word w t) (inr (inr zero)) done in
            rw (done, remove_in_tx) (before ∙ laws.delete_none w t t' q, refl)
        | inr (inr (suc n), done) ↦
            let q = answers (db.delete_word w t) (inr (inr (suc n))) done in
            let removed = laws.delete_removes w (suc n) t t' q ∙ ap (without_word w) seen in
            rw (done, remove_in_tx)
              (bump_version-InTx removing w now old t' (before ∙ laws.delete_some w n t t' q)
                (ap next_version removed))
      ]

  -- Over a PostgreSQL database each of `Add` and `Remove` is one atomic step on the tables. With
  -- no error the word was absent (for `Remove`: stored), it is now stored (absent), and the answer
  -- is the version, one more than before; on an error the tables are as they were, but for a failed
  -- commit, which may have happened. `ErrAlreadyExists` and `ErrNotFound` are returned only for a
  -- word that is stored, and one that is not; `ErrInvalidArgument` only for an empty one.
  pub repository-Refines :
      (u : Unicode) (word : Str) (now : Time) (d : D)
      → let w = normalize_word u word in
        Outcome adding w (tables d) (add db u word now d).0 (tables (add db u word now d).1)
        × Outcome removing w
            (tables d)
            (remove db u word now d).0
            (tables (remove db u word now d).1)
  unfolding add remove Outcome
  repository-Refines u word now d =
      let w = normalize_word u word in
      elim (Bool-cases (is_empty w)) [
        | inl empty ↦ rw (empty, add, remove) ((empty, refl), (empty, refl))
        | inr full ↦
            rw (full, add, remove)
              (
                in_tx-Outcome adding w (runes "commit add stop-word") (add_in_tx db w now) d
                    (λ t seen. add_in_tx-InTx w now (tables d) t seen),
                in_tx-Outcome removing w (runes "commit remove stop-word") (remove_in_tx db w now) d
                    (λ t seen. remove_in_tx-InTx w now (tables d) t seen),
              )
      ]
