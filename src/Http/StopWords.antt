-- ===== src/Http/StopWords.antt =====
-- handlers_stoplist.go over the repository: what the answers of the API say of the stored words and
-- of the words that the normalizer blocks.
use wb_trial_task.Common.{
  ℕ, ◌≢◌, ◌⊎◌, ℕ_discrete, ◌≡◌, ap, ◌∙◌, Bool, true, false, some, Str, arith, inl, inr, Bool-cases,
  Option-cases,
}
use wb_trial_task.Clock.{Time}
use wb_trial_task.Normalizer.{Unicode, IsUnicode, is_blocked, trim_space}
use wb_trial_task.Normalizer.StopWords.{stop_form}
use wb_trial_task.Stoplist.{CommandError}
use wb_trial_task.Stoplist.Sync.{add_word-blocks}
use wb_trial_task.Postgres.{Database, RepoError}
use wb_trial_task.Postgres.Tables.{Tables, IsPostgres}
use wb_trial_task.Postgres.Store.{
  repository_store, InForm, repository_store-IsStore, commands-InForce,
}
use wb_trial_task.Http.StopHandlers.{
  authorize_admin, guarded, add_stop_word, delete_stop_word, add_authorized, remove_authorized,
}
use wb_trial_task.Http.Wiring.{Server, repository_commands, main_api}
use wb_trial_task.Http.Ports.{Api, new_router}
use wb_trial_task.Metrics.{Collector}
use wb_trial_task.Http.Answers.{
  add_failed-conflict, add_failed-error, remove_failed-missing, remove_failed-error, added,
  added_stored, removed, removed_stored,
}

-- What holds behind two of the statuses.
abbrev pub ByStatus : ℕ → ℕ → ℕ → Type 0 → Type 0 → Type 0
ByStatus status a b A B = ((status ≡ a) × A) ⊎ (((status ≡ b) × B) ⊎ ((status ≢ a) × (status ≢ b)))

by_status :
    {A B : Type 0} {status : ℕ}
    → (a b : ℕ) → (status ≡ a → A) × (status ≡ b → B)
    → ByStatus status a b A B
by_status {status = status} a b h = elim (ℕ_discrete status a) [
  | yes first ↦ inl (first, h.0 first)
  | no not_first ↦ elim (ℕ_discrete status b) [
    | yes second ↦ inr (inl (second, h.1 second))
    | no other ↦ inr (inr (not_first, other))
  ]
]

module _ {D T E : Type 0} (db : Database D T E) (tables : D → Tables) (view : T → Tables)
    (laws : IsPostgres db tables view) (u : Unicode) (std : IsUnicode u) (now : Time)
    (s : Server D) where
  add_authorized-Truthful :
      (word : Str)
      → let w = stop_form u word in
        let x = add_authorized (repository_commands db u now) (some word) s in
        (x.0.status ≡ 201
          → ((tables s.database).has_word w ≡ false)
            × (is_blocked x.1.system.normalizer.stop_words w ≡ true))
        × (x.0.status ≡ 409 → (tables s.database).has_word w ≡ true)
  unfolding add_authorized
  add_authorized-Truthful word =
      elim (Option-cases (added db tables view laws u std now word s).0.1) [
        | inl done ↦
            rw (done, add_authorized)
              (
                λ h. (
                  (added_stored db tables view laws u std now word s).0 done,
                  add_word-blocks u std (repository_store db u now)
                      (repository_store-IsStore u std db tables view laws now) word
                      (s.database, s.system.normalizer) done,
                ),
                λ h. absurd (ground arith),
              )
        | inr (err, failure) ↦
            rw (failure, add_authorized)
              (
                λ h. absurd (add_failed-error db u now err h),
                λ h.
                    (added_stored db tables view laws u std now word s).1
                      (failure ∙ ap some (add_failed-conflict db u now err h)),
              )
      ]

  -- The same for a removal, of which `path_value` is the word with the white space around it.
  remove_authorized-Truthful :
      (path_value : Str)
      → InForm u (tables s.database)
      → let w = stop_form u (trim_space path_value) in
        let x = remove_authorized (repository_commands db u now) path_value s in
        (x.0.status ≡ 200
          → ((tables s.database).has_word w ≡ true)
            × (is_blocked x.1.system.normalizer.stop_words w ≡ false))
        × (x.0.status ≡ 404 → (tables s.database).has_word w ≡ false)
  unfolding remove_authorized
  remove_authorized-Truthful path_value good =
      elim (Option-cases (removed db tables view laws u std now (trim_space path_value) s).0.1) [
        | inl done ↦
            rw (done, remove_authorized)
              (
                λ h. (
                  (removed_stored db tables view laws u std now (trim_space path_value) s).0 done,
                  (commands-InForce u std db tables view laws now (trim_space path_value)
                        (s.database, s.system.normalizer) good).1
                      done,
                ),
                λ h. absurd (ground arith),
              )
        | inr (err, failure) ↦
            rw (failure, remove_authorized)
              (
                λ h. absurd (remove_failed-error db u now (trim_space path_value) err h),
                λ h. (removed_stored db tables view laws u std now (trim_space path_value) s).1 (
                    failure
                    ∙ ap some (remove_failed-missing db u now (trim_space path_value) err h)),
              )
      ]

  module _ (render : Collector → Str) (admin_token service_version : Str)
      (kafka_enabled : Bool) where
    abbrev pub api : Api (Server D) (CommandError (RepoError E))
    api = main_api db u now render admin_token service_version kafka_enabled

    -- Over a PostgreSQL database: adding a word is answered with 201, and the word's form was not
    -- stored and is now blocked by the normalizer; or with 409, and the form is stored already; or
    -- with another status.
    pub add_stop_word-Truthful :
        (header : Str) (word : Str)
        → let w = stop_form u word in
          let x = add_stop_word api header (some word) s in
          ByStatus x.0.status 201 409
            (((tables s.database).has_word w ≡ false)
              × (is_blocked x.1.system.normalizer.stop_words w ≡ true))
            ((tables s.database).has_word w ≡ true)
    unfolding add_stop_word guarded new_router
    add_stop_word-Truthful header word = elim (Bool-cases (authorize_admin api header)) [
      | inl granted ↦
          rw (granted, add_stop_word, guarded) (by_status 201 409 (add_authorized-Truthful word))
      | inr denied ↦
          rw (denied, add_stop_word, guarded) (inr (inr (λ h. ground arith, λ h. ground arith)))
    ]

    -- Over a PostgreSQL database whose words are in their own form: removing a word, without the
    -- white space around it, is answered with 200, and the word's form was stored and the
    -- normalizer does not block it; or with 404, and the form is not stored; or with another
    -- status.
    pub delete_stop_word-Truthful :
        (header : Str) (path_value : Str)
        → InForm u (tables s.database)
        → let w = stop_form u (trim_space path_value) in
          let x = delete_stop_word api header path_value s in
          ByStatus x.0.status 200 404
            (((tables s.database).has_word w ≡ true)
              × (is_blocked x.1.system.normalizer.stop_words w ≡ false))
            ((tables s.database).has_word w ≡ false)
    unfolding delete_stop_word guarded new_router
    delete_stop_word-Truthful header path_value good =
        elim (Bool-cases (authorize_admin api header)) [
          | inl granted ↦
              rw (granted, delete_stop_word, guarded)
                (by_status 200 404 (remove_authorized-Truthful path_value good))
          | inr denied ↦
              rw (denied, delete_stop_word, guarded)
                (inr (inr (λ h. ground arith, λ h. ground arith)))
        ]
