-- ===== src/Postgres/Errors.antt =====
-- The database as the repository calls it, and the repository's errors.
use wb_trial_task.Common.{
  ℕ, Bool, true, false, Option, none, some, List, Str, Str-discrete, runes, ite, ℤ, ◌⊎◌,
}

-- The rows of a query: what `Scan` gives for each, and the error of the iteration.
pub record Rows (E : Type 0) : Type 0 where
  pub scans : List (E ⊎ Str)
  pub err : Option E

-- The calls of `database/sql` that the repository makes, on a database `D` and its transactions
-- `T`, each with the one statement that the repository gives it.
pub record Database (D T E : Type 0) : Type 0 where
  pub begin_tx : D → (E ⊎ T) × D
  pub insert_word : Str → T → Option E × T
  pub delete_word : Str → T → (E ⊎ (E ⊎ ℕ)) × T  -- the result, and its `RowsAffected`
  pub update_version : ℕ → T → Option E × T  -- with the time of the update
  pub read_version : T → (E ⊎ ℤ) × T
  pub commit : T → D → Option E × D
  pub rollback : T → D → D
  pub select_words : D → (E ⊎ Rows E) × D
  pub select_version : D → (E ⊎ Option ℤ) × D  -- none is `ErrNoRows`
  pub ping : D → Option E × D
  pub exec : Str → D → Option E × D
  pub close : D → D
  pub pg_code : E → Option Str  -- the code of a `PgError` in the error's chain

pub data RepoError (E : Type 0) : Type 0 where
  invalid_argument already_exists not_found : RepoError E
  failed : Str → E → RepoError E  -- what failed, and the database's error
  commit_failed : Str → E → RepoError E
  dsn_is_empty : RepoError E

abbrev is_code : Str → Option Str → Bool
is_code code none = false
is_code code (some c) = ite (Str-discrete c code) true false

-- `isUniqueViolation`
unfoldable pub is_unique_violation : {D T E : Type 0} → Database D T E → E → Bool
is_unique_violation db err = is_code (runes "23505") (db.pg_code err)
