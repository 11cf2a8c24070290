-- ===== src/Postgres/Opening.antt =====
-- `NewStopListRepository`, with `ping` and `migrate`.
use wb_trial_task.Common.{
  Bool, Option, none, some, List, [], ◌∷◌, ◌++◌, Str, runes, is_empty, if◌then◌else◌, ◌⊎◌, inl, inr,
  sort_strings,
}
use wb_trial_task.Normalizer.{trim_space}
use wb_trial_task.Postgres.Errors.{Database, RepoError, failed, dsn_is_empty}

-- An entry of the directory of migrations, and the embedded files.
pub record Entry : Type 0 where
  pub name : Str
  pub is_dir : Bool

pub record Migrations (E : Type 0) : Type 0 where
  pub read_dir : E ⊎ List Entry
  pub read_file : Str → E ⊎ Str

unfoldable pub file_names : List Entry → List Str
file_names [] = []
file_names (entry ∷ entries) =
    if entry.is_dir then file_names entries else entry.name ∷ file_names entries

module _ {D T E : Type 0} (db : Database D T E) (files : Migrations E) where
  -- the loop over the sorted names
  unfoldable pub apply_migrations : List Str → D → Option (RepoError E) × D
  apply_migrations [] d = (none, d)
  apply_migrations (name ∷ names) d = elim (files.read_file (runes "migrations/" ++ name)) [
    | inl err ↦ (some (failed (runes "read migration " ++ name) err), d)
    | inr raw ↦
        let (r, d') = db.exec raw d in
        elim r [
          | some err ↦ (some (failed (runes "apply migration " ++ name) err), d')
          | none ↦ apply_migrations names d'
        ]
  ]

  unfoldable pub migrate : D → Option (RepoError E) × D
  unfolding sort_strings file_names apply_migrations
  migrate d = elim files.read_dir [
    | inl err ↦ (some (failed (runes "read migrations") err), d)
    | inr entries ↦ apply_migrations (sort_strings (file_names entries)) d
  ]

  -- The checks of a database that was opened: its error, if there is one, closes it.
  unfoldable pub check_opened : D → Option (RepoError E) × D
  unfolding migrate
  check_opened d =
      let (r, d') = db.ping d in
      elim r [
        | some err ↦ (some (failed (runes "ping postgres") err), db.close d')
        | none ↦
            let (m, d'') = migrate d' in
            elim m [ some err ↦ (some err, db.close d'') | none ↦ (none, d'') ]
      ]

  -- `Close`; a nil repository or database is none
  unfoldable pub close : Option D → Option D
  close none = none
  close (some d) = some (db.close d)

  -- `NewStopListRepository`: the error, with the database where one was opened, or the database.
  unfoldable pub new_stop_list_repository : (Str → E ⊎ D) → Str → (RepoError E × Option D) ⊎ D
  unfolding check_opened
  new_stop_list_repository sql_open dsn =
      if is_empty (trim_space dsn)
      then inl (dsn_is_empty, none)
      else elim (sql_open (trim_space dsn)) [
        | inl err ↦ inl (failed (runes "open postgres") err, none)
        | inr d ↦
            let (r, d') = check_opened d in elim r [ some err ↦ inl (err, some d') | none ↦ inr d' ]
      ]
