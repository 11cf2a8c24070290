-- ===== src/Tests/Postgres.antt =====
-- The repository over a database that is a list of words and a version.
use wb_trial_task.Common.{
  ◌≡◌, refl, sym, ap, ◌∙◌, Bool, true, false, Option, none, some, List, [], ◌∷◌, map, arith, Str,
  Str-discrete, runes, ℤ, pos, ite, if_pos, if_neg, inl, inr, ◌⊎◌, ℕ, suc, add_int64, if◌then◌else◌,
  Bool-cases,
}
use mathlib.Core.Path.{fun_ext, subst}
use wb_trial_task.Normalizer.{trim_space, is_space}
use wb_trial_task.Normalizer.StopWords.{HasWord, stop_form}
use wb_trial_task.Postgres.{is_unique_violation, Rows, Database, scan_words, add, remove}
use wb_trial_task.Postgres.Tables.{Tables, IsPostgres, with_word, without_word}
use wb_trial_task.Postgres.Refinement.{Outcome, adding, removing, repository-Refines}
use wb_trial_task.Postgres.Store.{InForm}
use wb_trial_task.Tests.Data.{ascii}

pub record Words : Type 0 where
  pub words : List Str
  pub version : ℤ

abbrev stores : List Str → Str → Bool
stores [] x = false
stores (y ∷ words) x = ite (Str-discrete x y) true (stores words x)

abbrev without : Str → List Str → List Str
without w [] = []
without w (y ∷ words) = ite (Str-discrete w y) (without w words) (y ∷ without w words)

abbrev pub tables : Words → Tables
tables s = record { has_word = stores s.words; version = s.version }

abbrev insert_unique : Str → Words → Option Str × Words
insert_unique w s =
    if stores s.words w
    then (some [], s)
    else (none, record { words = w ∷ s.words; version = s.version })

abbrev delete_all : Str → Words → (Str ⊎ (Str ⊎ ℕ)) × Words
delete_all w s = (
  inr (inr (if stores s.words w then 1 else 0)),
  record { words = without w s.words; version = s.version },
)

abbrev pub postgres : Database Words Words Str
postgres = record {
  begin_tx = λ d. (inr d, d);
  insert_word = insert_unique;
  delete_word = delete_all;
  update_version =
      λ ms t. (none, record { words = t.words; version = add_int64 t.version (pos 1) });
  read_version = λ t. (inr t.version, t);
  commit = λ t d. (none, t);
  rollback = λ t d. d;
  select_words = λ d. (inr (record { scans = map inr d.words; err = none }), d);
  select_version = λ d. (inr (some d.version), d);
  ping = λ d. (none, d);
  exec = λ sql d. (none, d);
  close = λ d. d;
  pg_code = λ err. some (runes "23505");
}

stores-without :
    (w x : Str) (words : List Str)
    → stores (without w words) x ≡ ite (Str-discrete x w) false (stores words x)
stores-without w x [] = elim (Str-discrete x w) [
  | yes same ↦ sym (if_pos (Str-discrete x w) same false false)
  | no other ↦ sym (if_neg (Str-discrete x w) other false false)
]
stores-without w x (y ∷ words) = elim (Str-discrete w y) [
  | yes here ↦ rw (if_pos (Str-discrete w y) here) (elim (Str-discrete x w) [
    | yes same ↦
        stores-without w x words
        ∙ if_pos (Str-discrete x w) same false (stores words x)
        ∙ sym (if_pos (Str-discrete x w) same false (stores (y ∷ words) x))
    | no other ↦
        stores-without w x words ∙ rw (if_neg (Str-discrete x y) (λ e. other (e ∙ sym here))) refl
  ])
  | no apart ↦ rw (if_neg (Str-discrete w y) apart) (elim (Str-discrete x y) [
    | yes same ↦
        if_pos (Str-discrete x y) same true (stores (without w words) x)
        ∙ sym (
            if_neg (Str-discrete x w) (λ e. apart (sym e ∙ same)) false (stores (y ∷ words) x)
            ∙ if_pos (Str-discrete x y) same true (stores words x))
    | no other ↦
        if_neg (Str-discrete x y) other true (stores (without w words) x)
        ∙ stores-without w x words
        ∙ rw (if_neg (Str-discrete x y) other) refl
  ])
]

HasWord-stores : (w : Str) (words : List Str) → HasWord w words → stores words w ≡ true
HasWord-stores w [] h = absurd h
HasWord-stores w (y ∷ words) h = elim (Str-discrete w y) [
  | yes same ↦ rw (if_pos (Str-discrete w y) same) refl
  | no other ↦
      rw (if_neg (Str-discrete w y) other)
        (elim h [ inl here ↦ absurd (other (sym here)) | inr later ↦ HasWord-stores w words later ])
]

stores-HasWord : (w : Str) (words : List Str) → stores words w ≡ true → HasWord w words
stores-HasWord w [] h = absurd (ground arith)
stores-HasWord w (y ∷ words) h = elim (Str-discrete w y) [
  | yes same ↦ inl (sym same)
  | no other ↦ inr (stores-HasWord w words (rw (if_neg (Str-discrete w y) other) at h))
]

scan_words-map : (words : List Str) → scan_words {E = Str} (map inr words) ≡ inr words
unfolding scan_words
scan_words-map [] = refl
scan_words-map (y ∷ words) = rw (scan_words-map words) refl

tables-without :
    (w : Str) (s : Words)
    → tables (record { words = without w s.words; version = s.version }) ≡ without_word w (tables s)
tables-without w s = rw (fun_ext (λ x. stores-without w x s.words)) refl

abbrev Inserted : Str → Words → Option Str × Words → Type 0
Inserted w s x =
    ((x.0 ≡ none) × (stores s.words w ≡ false) × (tables x.1 ≡ with_word w (tables s)))
    ⊎ ((x.0 ≡ some []) × (stores s.words w ≡ true))

insert_cases : (w : Str) (s : Words) → Inserted w s (insert_unique w s)
insert_cases w s = elim (Bool-cases (stores s.words w)) [
  | inl present ↦ rw (present) (inr (refl, refl))
  | inr absent ↦ rw (absent) (inl (refl, refl, refl))
]

insert_unique-Inserted :
    (w : Str) (s s' : Words) (r : Option Str) → insert_unique w s ≡ (r, s') → Inserted w s (r, s')
insert_unique-Inserted w s s' r h = subst (Inserted w s) h (insert_cases w s)

abbrev Deleted : Str → Words → (Str ⊎ (Str ⊎ ℕ)) × Words → Type 0
Deleted w s x =
    (tables x.1 ≡ without_word w (tables s))
    × (((x.0 ≡ inr (inr 0)) × (stores s.words w ≡ false))
        ⊎ ((x.0 ≡ inr (inr 1)) × (stores s.words w ≡ true)))

delete_cases : (w : Str) (s : Words) → Deleted w s (delete_all w s)
delete_cases w s = elim (Bool-cases (stores s.words w)) [
  | inl present ↦ rw (present) (tables-without w s, inr (refl, refl))
  | inr absent ↦ rw (absent) (tables-without w s, inl (refl, refl))
]

delete_all-Deleted :
    (w : Str) (n : ℕ) (s s' : Words)
    → delete_all w s ≡ (inr (inr n), s')
    → Deleted w s (inr (inr n), s')
delete_all-Deleted w n s s' h = subst (Deleted w s) h (delete_cases w s)

abbrev scans_of : Str ⊎ Rows Str → List (Str ⊎ Str)
scans_of (inl err) = []
scans_of (inr rows) = rows.scans

listed :
    (rows : Rows Str) (words : List Str) (d d' : Words)
    → postgres.select_words d ≡ (inr rows, d')
    → scan_words rows.scans ≡ inr words
    → words ≡ d.words
listed rows words d d' h scanned =
    let e : rows.scans ≡ map inr d.words = ap (λ x. scans_of x.0) (sym h) in
    let q : scan_words {E = Str} (map inr d.words) ≡ inr words = rw (e) at scanned in
    let p = scan_words-map d.words in cc

pub postgres-IsPostgres : IsPostgres postgres tables tables
unfolding is_unique_violation
postgres-IsPostgres = record {
  begin_same = λ d. refl;
  begin_view = λ d d' t h. ap tables (ground arith);
  insert_absent = λ w t t' h. elim (insert_unique-Inserted w t t' none h) [
    | inl done ↦ done.1
    | inr (impossible, present) ↦ absurd cc
  ];
  insert_adds = λ w t t' h. elim (insert_unique-Inserted w t t' none h) [
    | inl done ↦ done.2
    | inr (impossible, present) ↦ absurd cc
  ];
  insert_present = λ w err t t' h unique. elim (insert_unique-Inserted w t t' (some err) h) [
    | inl (impossible, absent, added) ↦ absurd cc
    | inr (r, present) ↦ present
  ];
  delete_removes = λ w n t t' h. (delete_all-Deleted w n t t' h).0;
  delete_none = λ w t t' h. elim (delete_all-Deleted w 0 t t' h).1 [
    | inl (r, absent) ↦ absent
    | inr (impossible, present) ↦ absurd (ground arith)
  ];
  delete_some = λ w n t t' h. elim (delete_all-Deleted w (suc n) t t' h).1 [
    | inl (impossible, absent) ↦ absurd (ground arith)
    | inr (r, present) ↦ present
  ];
  update_bumps = λ ms t t' h. ap (λ x. tables x.1) (sym h);
  read_same = λ t. refl;
  read_gives = λ v t t' h. ground arith;
  commit_writes = λ t d d' h. ap (λ x. tables x.1) (sym h);
  commit_unknown = λ err t d d' h. absurd (ground arith);
  rollback_same = λ t d. refl;
  select_same = λ d. refl;
  select_sound = λ rows words d d' w h scanned ended has.
      HasWord-stores w d.words (rw (listed rows words d d' h scanned) at has);
  select_complete = λ rows words d d' w h scanned ended stored.
      rw (listed rows words d d' h scanned) (stores-HasWord w d.words stored);
  select_version_same = λ d. refl;
}

abbrev pub stored : Words
stored = record { words = runes "the" ∷ []; version = pos 4 }

pub stored-InForm : InForm ascii (tables stored)
unfolding trim_space is_space
stored-InForm x h = elim (stores-HasWord x stored.words h) [
  | inl the ↦ subst (λ y. stop_form ascii y ≡ y) the refl
  | inr later ↦ absurd later
]

repository-Refines_example :
    Outcome adding
      (runes "a")
      (tables stored)
      (add postgres ascii (runes " A") 5 stored).0
      (tables (add postgres ascii (runes " A") 5 stored).1)
    × Outcome removing
        (runes "a")
        (tables stored)
        (remove postgres ascii (runes " A") 5 stored).0
        (tables (remove postgres ascii (runes " A") 5 stored).1)
unfolding trim_space is_space
repository-Refines_example =
    repository-Refines postgres tables tables postgres-IsPostgres ascii (runes " A") 5 stored
