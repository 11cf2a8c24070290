-- ===== src/Stoplist/Concurrent.antt =====
-- internal/usecase/stoplist/commands.go under concurrent requests: a command is three calls, of the
-- store, of its list and of `ReplaceStopWords`, and no lock holds them together. Each call is one
-- step of its client, since the store and the normalizer guard themselves.
use wb_trial_task.Common.{
  ℕ, zero, suc, Option, none, some, List, [], ◌∷◌, Str, is_empty, ℤ, pos, if◌then◌else◌, ◌⊎◌, inl,
  inr,
}
use wb_trial_task.Normalizer.{Unicode, Service, trim_space, to_lower, replace_stop_words}
use wb_trial_task.Stoplist.{StopListStore, CommandError, store_error, invalid_argument}

pub data Request : Type 0 where
  adding removing : Str → Request

-- Where a command stands between its calls. It ends with a version and an error, as `Add` and
-- `Remove` return them.
pub data Phase (E : Type 0) : Type 0 where
  starting : Request → Phase E
  listing : ℤ → Phase E
  replacing : ℤ → List Str → Phase E
  returned : ℤ × Option (CommandError E) → Phase E

abbrev pub starting_all : {E : Type 0} → List Request → List (Phase E)
starting_all [] = []
starting_all (r ∷ requests) = starting r ∷ starting_all requests

abbrev pub written : {E : Type 0} → E ⊎ ℤ → Phase E
written (inl err) = returned (pos 0, some (store_error err))
written (inr version) = listing version

abbrev pub listed : {E : Type 0} → ℤ → E ⊎ (List Str × ℤ) → Phase E
listed version (inl err) = returned (version, some (store_error err))
listed version (inr (words, v)) = replacing version words

module _ (u : Unicode) {S E : Type 0} (store : StopListStore S E) where
  -- The call of the store, by the request and the form of its word.
  abbrev pub write_word : Request → S → (E ⊎ ℤ) × S
  write_word (adding word) st = store.add (trim_space (to_lower u word)) st
  write_word (removing word) st = store.remove (trim_space (to_lower u word)) st

  abbrev pub requested_word : Request → Str
  requested_word (adding word) = trim_space (to_lower u word)
  requested_word (removing word) = trim_space (to_lower u word)

  -- The next call of a command, on the store and the normalizer.
  unfoldable pub advance : Phase E → S × Service → Phase E × (S × Service)
  advance (starting r) (st, norm) =
      if is_empty (requested_word r)
      then (returned (pos 0, some invalid_argument), (st, norm))
      else let (answer, st') = write_word r st in (written answer, (st', norm))
  advance (listing version) (st, norm) =
      let (answer, st') = store.list st in (listed version answer, (st', norm))
  advance (replacing version words) (st, norm) =
      (returned (version, none), (st, replace_stop_words u words norm))
  advance (returned result) s = (returned result, s)

  -- The client at an index makes its next call.
  unfoldable pub take_turn : ℕ → List (Phase E) × (S × Service) → List (Phase E) × (S × Service)
  unfolding advance
  take_turn i ([], s) = ([], s)
  take_turn zero (p ∷ clients, s) = let (p', s') = advance p s in (p' ∷ clients, s')
  take_turn (suc i) (p ∷ clients, s) =
      let (clients', s') = take_turn i (clients, s) in (p ∷ clients', s')

  -- A schedule names the client of each step.
  unfoldable pub run_schedule :
      List ℕ → List (Phase E) × (S × Service) → List (Phase E) × (S × Service)
  run_schedule [] w = w
  run_schedule (i ∷ turns) w = run_schedule turns (take_turn i w)
