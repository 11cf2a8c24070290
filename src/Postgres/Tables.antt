-- ===== src/Postgres/Tables.antt =====
-- The tables of the repository's migrations (`stop_words`, `stop_list_state`), and what its
-- statements do to them in a database that no one else writes to.
use wb_trial_task.Common.{
  ◌≡◌, Bool, true, false, none, some, List, Str, Str-discrete, ℤ, pos, ite, add_int64, ◌⊎◌, inr, ℕ,
  zero, suc,
}
use wb_trial_task.Normalizer.StopWords.{HasWord}
use wb_trial_task.Postgres.Errors.{Rows, Database, is_unique_violation}
use wb_trial_task.Postgres.Repository.{scan_words}

pub record Tables : Type 0 where
  pub has_word : Str → Bool
  pub version : ℤ

-- The effects of the three writing statements.
abbrev pub with_word : Str → Tables → Tables
with_word w t = record {
  has_word = λ x. ite (Str-discrete x w) true (t.has_word x);
  version = t.version;
}

abbrev pub without_word : Str → Tables → Tables
without_word w t = record {
  has_word = λ x. ite (Str-discrete x w) false (t.has_word x);
  version = t.version;
}

abbrev pub next_version : Tables → Tables
next_version t = record { has_word = t.has_word; version = add_int64 t.version (pos 1) }

-- A PostgreSQL database with the tables `tables d`; in a transaction `view t` is what it sees.
-- A statement that fails has no effect, and a commit that reports an error may have happened.
pub record IsPostgres {D T E : Type 0} (db : Database D T E) (tables : D → Tables)
    (view : T → Tables) : Type 0 where
  pub begin_same : (d : D) → tables (db.begin_tx d).1 ≡ tables d
  pub begin_view : (d d' : D) (t : T) → db.begin_tx d ≡ (inr t, d') → view t ≡ tables d
  pub insert_absent :
      (w : Str) (t t' : T) → db.insert_word w t ≡ (none, t') → (view t).has_word w ≡ false
  pub insert_adds :
      (w : Str) (t t' : T) → db.insert_word w t ≡ (none, t') → view t' ≡ with_word w (view t)
  pub insert_present :
      (w : Str) (err : E) (t t' : T)
      → db.insert_word w t ≡ (some err, t')
      → is_unique_violation db err ≡ true
      → (view t).has_word w ≡ true
  pub delete_removes :
      (w : Str) (n : ℕ) (t t' : T)
      → db.delete_word w t ≡ (inr (inr n), t')
      → view t' ≡ without_word w (view t)
  pub delete_none :
      (w : Str) (t t' : T) → db.delete_word w t ≡ (inr (inr zero), t') → (view t).has_word w ≡ false
  pub delete_some :
      (w : Str) (n : ℕ) (t t' : T)
      → db.delete_word w t ≡ (inr (inr (suc n)), t')
      → (view t).has_word w ≡ true
  pub update_bumps :
      (ms : ℕ) (t t' : T) → db.update_version ms t ≡ (none, t') → view t' ≡ next_version (view t)
  pub read_same : (t : T) → view (db.read_version t).1 ≡ view t
  pub read_gives : (v : ℤ) (t t' : T) → db.read_version t ≡ (inr v, t') → v ≡ (view t).version
  pub commit_writes : (t : T) (d d' : D) → db.commit t d ≡ (none, d') → tables d' ≡ view t
  pub commit_unknown :
      (err : E) (t : T) (d d' : D)
      → db.commit t d ≡ (some err, d')
      → (tables d' ≡ tables d) ⊎ (tables d' ≡ view t)
  pub rollback_same : (t : T) (d : D) → tables (db.rollback t d) ≡ tables d
  pub select_same : (d : D) → tables (db.select_words d).1 ≡ tables d
  -- rows that were scanned to their end without an error
  pub select_sound :
      (rows : Rows E) (words : List Str) (d d' : D) (w : Str)
      → db.select_words d ≡ (inr rows, d')
      → scan_words rows.scans ≡ inr words
      → rows.err ≡ none
      → HasWord w words
      → (tables d).has_word w ≡ true
  pub select_complete :
      (rows : Rows E) (words : List Str) (d d' : D) (w : Str)
      → db.select_words d ≡ (inr rows, d')
      → scan_words rows.scans ≡ inr words
      → rows.err ≡ none
      → (tables d).has_word w ≡ true
      → HasWord w words
  pub select_version_same : (d : D) → tables (db.select_version d).1 ≡ tables d
