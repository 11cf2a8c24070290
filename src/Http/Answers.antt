-- ===== src/Http/Answers.antt =====
-- handlers_stoplist.go over the repository: what the errors behind an answer say of the stored
-- words.
use wb_trial_task.Common.{
  ◌≡◌, refl, true, false, Option, none, some, Str, is_empty, ℤ, arith, inl, inr, Bool-cases, ◌≢◌,
}
use wb_trial_task.Clock.{Time}
use wb_trial_task.Normalizer.{Unicode, IsUnicode, Service}
use wb_trial_task.Normalizer.StopWords.{stop_form}
use wb_trial_task.Stoplist.{CommandError, store_error, add_word, remove_word}
use wb_trial_task.Stoplist.Forms.{stop_form_idem}
use wb_trial_task.Stoplist.Sync.{command-Answered}
use wb_trial_task.Postgres.{Database, RepoError, add, remove}
use wb_trial_task.Postgres.Tables.{Tables, IsPostgres}
use wb_trial_task.Postgres.Refinement.{Outcome, repository-Refines}
use wb_trial_task.Postgres.Store.{repository_store, list-failed}
use wb_trial_task.Http.StopHandlers.{add_failed, remove_failed}
use wb_trial_task.Http.Wiring.{Server, repository_commands}

module _ {D T E : Type 0} (db : Database D T E) (u : Unicode) (now : Time) where
  -- An error that is answered with 409 or 404 is one of the store's.
  pub add_failed-conflict :
      (err : CommandError (RepoError E))
      → (add_failed (repository_commands db u now) err).status ≡ 409
      → err ≡ store_error RepoError.already_exists
  add_failed-conflict CommandError.invalid_argument h = absurd (ground arith)
  add_failed-conflict (store_error RepoError.invalid_argument) h = absurd (ground arith)
  add_failed-conflict (store_error RepoError.already_exists) h = refl
  add_failed-conflict (store_error RepoError.not_found) h = absurd (ground arith)
  add_failed-conflict (store_error (RepoError.failed what err)) h = absurd (ground arith)
  add_failed-conflict (store_error (RepoError.commit_failed what err)) h = absurd (ground arith)
  add_failed-conflict (store_error RepoError.dsn_is_empty) h = absurd (ground arith)

  pub add_failed-error :
      (err : CommandError (RepoError E))
      → (add_failed (repository_commands db u now) err).status ≢ 201
  add_failed-error CommandError.invalid_argument = λ h. ground arith
  add_failed-error (store_error RepoError.invalid_argument) = λ h. ground arith
  add_failed-error (store_error RepoError.already_exists) = λ h. ground arith
  add_failed-error (store_error RepoError.not_found) = λ h. ground arith
  add_failed-error (store_error (RepoError.failed what err)) = λ h. ground arith
  add_failed-error (store_error (RepoError.commit_failed what err)) = λ h. ground arith
  add_failed-error (store_error RepoError.dsn_is_empty) = λ h. ground arith

  pub remove_failed-missing :
      (path : Str) (err : CommandError (RepoError E))
      → (remove_failed (repository_commands db u now) path err).status ≡ 404
      → err ≡ store_error RepoError.not_found
  remove_failed-missing path CommandError.invalid_argument h = absurd (ground arith)
  remove_failed-missing path (store_error RepoError.invalid_argument) h = absurd (ground arith)
  remove_failed-missing path (store_error RepoError.already_exists) h = absurd (ground arith)
  remove_failed-missing path (store_error RepoError.not_found) h = refl
  remove_failed-missing path (store_error (RepoError.failed what err)) h = absurd (ground arith)
  remove_failed-missing path (store_error (RepoError.commit_failed what err)) h =
      absurd (ground arith)
  remove_failed-missing path (store_error RepoError.dsn_is_empty) h = absurd (ground arith)

  pub remove_failed-error :
      (path : Str) (err : CommandError (RepoError E))
      → (remove_failed (repository_commands db u now) path err).status ≢ 200
  remove_failed-error path err = λ h. ground arith

module _ {D T E : Type 0} (db : Database D T E) (tables : D → Tables) (view : T → Tables)
    (laws : IsPostgres db tables view) (u : Unicode) (std : IsUnicode u) (now : Time) (word : Str)
    (s : Server D) where
  abbrev pub added : (ℤ × Option (CommandError (RepoError E))) × (D × Service)
  added = add_word u (repository_store db u now) true word (s.database, s.system.normalizer)

  abbrev pub removed : (ℤ × Option (CommandError (RepoError E))) × (D × Service)
  removed = remove_word u (repository_store db u now) true word (s.database, s.system.normalizer)

  empty_word :
      is_empty (stop_form u word) ≡ true
      → (added.0.1 ≡ some CommandError.invalid_argument)
        × (removed.0.1 ≡ some CommandError.invalid_argument)
  unfolding add_word remove_word
  empty_word empty = rw (empty, add_word, remove_word) (refl, refl)

  -- The word is stored, or is not, when a command had no error or one particular error.
  pub added_stored :
      (added.0.1 ≡ none → (tables s.database).has_word (stop_form u word) ≡ false)
      × (added.0.1 ≡ some (store_error RepoError.already_exists)
          → (tables s.database).has_word (stop_form u word) ≡ true)
  unfolding Outcome
  added_stored = elim (Bool-cases (is_empty (stop_form u word))) [
    | inl empty ↦ let e = empty_word empty in (λ h. absurd cc, λ h. absurd cc)
    | inr full ↦
        let o =
          rw (stop_form_idem u std word) at
            (repository-Refines db tables view laws u (stop_form u word) now s.database).0 in
        elim (command-Answered u (repository_store db u now) true word
          (s.database, s.system.normalizer) full).0 [
            | inl (done, v, answer) ↦ (λ h. (rw (answer) at o).0, λ h. absurd cc)
            | inr (err, failure, why) ↦ (
              λ h. absurd cc,
              λ h.
                  let same : err ≡ RepoError.already_exists = ground arith in
                  elim why [
                    | inl answer ↦ (rw (answer, same) at o).0
                    | inr unlisted ↦
                        let f =
                          list-failed u std db tables view laws now
                            (add db u (stop_form u word) now s.database).1 err unlisted in
                        absurd cc
                  ],
            )
          ]
  ]

  pub removed_stored :
      (removed.0.1 ≡ none → (tables s.database).has_word (stop_form u word) ≡ true)
      × (removed.0.1 ≡ some (store_error RepoError.not_found)
          → (tables s.database).has_word (stop_form u word) ≡ false)
  unfolding Outcome
  removed_stored = elim (Bool-cases (is_empty (stop_form u word))) [
    | inl empty ↦ let e = empty_word empty in (λ h. absurd cc, λ h. absurd cc)
    | inr full ↦
        let o =
          rw (stop_form_idem u std word) at
            (repository-Refines db tables view laws u (stop_form u word) now s.database).1 in
        elim (command-Answered u (repository_store db u now) true word
          (s.database, s.system.normalizer) full).1 [
            | inl (done, v, answer) ↦ (λ h. (rw (answer) at o).0, λ h. absurd cc)
            | inr (err, failure, why) ↦ (
              λ h. absurd cc,
              λ h.
                  let same : err ≡ RepoError.not_found = ground arith in
                  elim why [
                    | inl answer ↦ (rw (answer, same) at o).0
                    | inr unlisted ↦
                        let f =
                          list-failed u std db tables view laws now
                            (remove db u (stop_form u word) now s.database).1 err unlisted in
                        absurd cc
                  ],
            )
          ]
  ]
