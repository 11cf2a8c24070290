-- ===== src/Tests/Stoplist.antt =====
-- Concurrent commands over the small database.
use wb_trial_task.Common.{◌≡◌, true, none, List, [], ◌∷◌, Str-discrete, pos, inr, inl}
use wb_trial_task.Normalizer.{Service}
use wb_trial_task.Stoplist.Concurrent.{
  Request, adding, removing, starting_all, run_schedule, returned,
}
use wb_trial_task.Postgres.Keeping.{unremoved_word-stays}
use wb_trial_task.Postgres.Store.{repository_store, repository_store-IsStore}
use wb_trial_task.Tests.Postgres.{postgres, postgres-IsPostgres, tables, stored}
use wb_trial_task.Common.{runes, refl, false, arith, ap, length}
use wb_trial_task.Postgres.{
  add, add_in_tx, in_tx, finish_tx, bump_version, list, read_rows, read_list_version, scan_words,
}
use wb_trial_task.Stoplist.Schedules.{stale_list-unblocks}
use wb_trial_task.Normalizer.StopWords.{HasWord}
use wb_trial_task.Common.Dict.{lookup}
use wb_trial_task.Normalizer.{is_blocked, trim_space, trim_left, trim_right, is_space}
use wb_trial_task.Tests.Data.{ascii, ascii-IsUnicode}

-- One client adds a word while two others, of which one gives an empty word, come between.
abbrev requests : List Request
requests = adding (runes "Phone ") ∷ removing (runes "tv") ∷ adding (runes " ") ∷ []

abbrev blocking : Service
blocking = record { stop_words = (runes "the", tt) ∷ [] }

unremoved_word-stays_example :
    let x =
      run_schedule ascii
        (repository_store postgres ascii 0)
        (0 ∷ 1 ∷ 0 ∷ 2 ∷ 1 ∷ 0 ∷ [])
        (starting_all requests, (stored, blocking)) in
    ((tables x.1.0).has_word (runes "the") ≡ true)
    × (is_blocked x.1.1.stop_words (runes "the") ≡ true)
unfolding is_blocked lookup trim_space trim_left trim_right is_space Str-discrete
unremoved_word-stays_example =
    unremoved_word-stays ascii ascii-IsUnicode postgres tables tables postgres-IsPostgres 0
      (runes "the") requests (0 ∷ 1 ∷ 0 ∷ 2 ∷ 1 ∷ 0 ∷ []) stored blocking refl refl
      (tt, ((λ e. cc), (tt, tt))) refl refl

tv_not_sale : runes "tv" ≡ runes "sale" → ⊥
tv_not_sale e = absurd (omega (arith, ap (λ w. length w) e))

the_not_sale : runes "the" ≡ runes "sale" → ⊥
the_not_sale e = absurd (omega (arith, ap (λ w. length w) e))

-- Two clients that add a word each to the words of the database.
stale_list-unblocks_example :
    let x =
      run_schedule ascii
        (repository_store postgres ascii 0)
        (0 ∷ 0 ∷ 1 ∷ 1 ∷ 1 ∷ 0 ∷ [])
        (starting_all (adding (runes "tv") ∷ adding (runes "Sale") ∷ []), (stored, blocking)) in
    (x.0 ≡ returned (pos 5, none) ∷ returned (pos 6, none) ∷ [])
    × (x.1.0 ≡ record { words = runes "sale" ∷ runes "tv" ∷ runes "the" ∷ []; version = pos 6 })
    × HasWord (runes "sale") (runes "sale" ∷ runes "tv" ∷ runes "the" ∷ [])
    × (is_blocked x.1.1.stop_words (runes "sale") ≡ false)
unfolding trim_space trim_left trim_right is_space Str-discrete add add_in_tx in_tx finish_tx
    bump_version list read_rows read_list_version scan_words
stale_list-unblocks_example =
    stale_list-unblocks ascii ascii-IsUnicode (repository_store postgres ascii 0)
      (repository_store-IsStore ascii ascii-IsUnicode postgres tables tables postgres-IsPostgres 0)
      (runes "tv") (runes "Sale") stored
      (record { words = runes "tv" ∷ runes "the" ∷ []; version = pos 5 })
      (record { words = runes "tv" ∷ runes "the" ∷ []; version = pos 5 })
      (record { words = runes "sale" ∷ runes "tv" ∷ runes "the" ∷ []; version = pos 6 })
      (record { words = runes "sale" ∷ runes "tv" ∷ runes "the" ∷ []; version = pos 6 }) blocking
      (pos 5) (pos 6) (pos 5) (pos 6) (runes "tv" ∷ runes "the" ∷ [])
      (runes "sale" ∷ runes "tv" ∷ runes "the" ∷ []) refl refl refl refl refl refl
      (λ h. elim h [
        | inl (e, f) ↦ tv_not_sale e
        | inr (inl (e, f)) ↦ the_not_sale e
        | inr (inr impossible) ↦ impossible
      ])
