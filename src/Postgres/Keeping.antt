-- ===== src/Postgres/Keeping.antt =====
-- stoplist_repo.go under concurrent commands: a stored word stays until it is removed.
use wb_trial_task.Common.{
  ◌≡◌, refl, sym, ◌∙◌, true, none, some, Str, ℤ, ◌⊎◌, inl, inr, Option-cases, Sum-cases, answers,
  List, All, ℕ, is_empty, false, Str-discrete, if_pos, if_neg,
}
use wb_trial_task.Clock.{Time}
use wb_trial_task.Normalizer.{Unicode, IsUnicode, Service, is_blocked}
use wb_trial_task.Normalizer.StopWords.{stop_form}
use wb_trial_task.Stoplist.Concurrent.{Request, starting_all, run_schedule}
use wb_trial_task.Stoplist.Schedules.{IsKeeping, Spares, spared_word-stays}
use wb_trial_task.Postgres.Errors.{Database, RepoError}
use wb_trial_task.Postgres.Repository.{
  normalize_word, scan_words, read_list_version, read_rows, list, add, remove,
}
use wb_trial_task.Postgres.Tables.{Tables, IsPostgres}
use wb_trial_task.Postgres.Refinement.{
  Command, Outcome, Outcome-applied, applied, adding, removing, repository-Refines,
}
use wb_trial_task.Postgres.Store.{repository_store, has_word-applied, list-Listing}

module _ (u : Unicode) (std : IsUnicode u) {D T E : Type 0} (db : Database D T E)
    (tables : D → Tables) (view : T → Tables) (laws : IsPostgres db tables view) (now : Time) where
  read_list_version-tables :
      (words : List Str) (d : D) → tables (read_list_version db words d).1 ≡ tables d
  unfolding read_list_version
  read_list_version-tables words d = elim (Sum-cases (db.select_version d).0) [
    | inl (err, failure) ↦ rw (failure, read_list_version) (laws.select_version_same d)
    | inr (none, given) ↦ rw (given, read_list_version) (laws.select_version_same d)
    | inr (some version, given) ↦ rw (given, read_list_version) (laws.select_version_same d)
  ]

  -- Reading the list changes no table, whether it succeeds or not.
  pub list-tables : (d : D) → tables (list db d).1 ≡ tables d
  unfolding list read_rows
  list-tables d = elim (Sum-cases (db.select_words d).0) [
    | inl (err, failure) ↦ rw (failure, list) (laws.select_same d)
    | inr (rows, selected) ↦ elim (Sum-cases (scan_words rows.scans)) [
      | inl (err, failure) ↦ rw (selected, list, read_rows, failure) (laws.select_same d)
      | inr (words, scanned) ↦ elim (Option-cases rows.err) [
        | inr (err, failure) ↦ rw (selected, list, read_rows, scanned, failure) (laws.select_same d)
        | inl ended ↦
            rw (selected, list, read_rows, scanned, ended)
              (read_list_version-tables words (db.select_words d).1 ∙ laws.select_same d)
      ]
    ]
  ]

  applied-keeps :
      (c : Command) (w x : Str) (t : Tables)
      → (c ≡ adding) ⊎ (x ≡ w → ⊥)
      → t.has_word w ≡ true
      → (applied c x t).has_word w ≡ true
  applied-keeps adding w x t spares h = elim (Str-discrete w x) [
    | yes same ↦ rw (if_pos (Str-discrete w x) same) refl
    | no other ↦ rw (if_neg (Str-discrete w x) other) h
  ]
  applied-keeps removing w x t (inl adds) h = absurd (cc adds)
  applied-keeps removing w x t (inr other) h =
      has_word-applied u std db tables view laws now removing x w t (λ e. other (sym e)) ∙ h

  command-keeps :
      (c : Command) (w x : Str) (old new : Tables) (r : RepoError E ⊎ ℤ)
      → stop_form u x ≡ x
      → Outcome c (normalize_word u x) old r new
      → (c ≡ adding) ⊎ (x ≡ w → ⊥)
      → old.has_word w ≡ true
      → new.has_word w ≡ true
  command-keeps c w x old new r own o spares h =
      elim (Outcome-applied c (normalize_word u x) old new r o) [
        | inl same ↦ rw (same) h
        | inr done ↦ rw (done, own) (applied-keeps c w x old spares h)
      ]

  -- The repository over PostgreSQL is a store in which a word stays until it is removed.
  pub repository_store-IsKeeping : IsKeeping u (repository_store db u now)
  repository_store-IsKeeping = record {
    Has = λ w d. (tables d).has_word w ≡ true;
    add_keeps = λ w x d own h.
        command-keeps adding w x (tables d) (tables (add db u x now d).1) (add db u x now d).0 own
          (repository-Refines db tables view laws u x now d).0 (inl refl) h;
    remove_keeps = λ w x d own other h.
        command-keeps removing w x (tables d) (tables (remove db u x now d).1)
          (remove db u x now d).0 own (repository-Refines db tables view laws u x now d).1
          (inr other) h;
    list_keeps = λ w d h. rw (list-tables d) h;
    lists = λ w v words d h given.
        let l =
          list-Listing u std db tables view laws now v words d (list db d).1
            (answers (list db d) (inr (words, v)) given) in
        laws.select_complete l.rows words d l.d' w l.selected l.scanned l.ended h;
  }

  -- Over a PostgreSQL database, whatever concurrent commands there are and in whatever order their
  -- calls come: a word in its own form that is stored and blocked, and that none of the commands
  -- removes, is stored and blocked after every number of calls.
  pub unremoved_word-stays :
      (w : Str) (requests : List Request) (turns : List ℕ) (d : D) (norm : Service)
      → stop_form u w ≡ w
      → is_empty w ≡ false
      → All (Spares u w) requests
      → (tables d).has_word w ≡ true
      → is_blocked norm.stop_words w ≡ true
      → let x =
          run_schedule u (repository_store db u now) turns (starting_all requests, (d, norm)) in
        ((tables x.1.0).has_word w ≡ true) × (is_blocked x.1.1.stop_words w ≡ true)
  unfolding repository_store-IsKeeping
  unremoved_word-stays w requests turns d norm own full spares has blocked =
      spared_word-stays u std (repository_store db u now) repository_store-IsKeeping w own full
        requests turns d norm spares has blocked
