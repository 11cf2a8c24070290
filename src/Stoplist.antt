-- ===== src/Stoplist.antt =====
-- internal/usecase/stoplist/commands.go: the commands on the stop-list, over its store, with the
-- normalizer as the one who is told of a new list.
pub mod Forms
pub mod Sync
pub mod Concurrent
pub mod Schedules
use wb_trial_task.Common.{
  Bool, Option, none, some, List, Str, is_empty, ℤ, pos, if◌then◌else◌, ◌⊎◌, inl, inr,
}
use wb_trial_task.Normalizer.{Unicode, Service, trim_space, to_lower, replace_stop_words}

-- The interface `StopListStore`, on a state `S` and with errors `E`.
pub record StopListStore (S E : Type 0) : Type 0 where
  pub add : Str → S → (E ⊎ ℤ) × S
  pub remove : Str → S → (E ⊎ ℤ) × S
  pub list : S → (E ⊎ (List Str × ℤ)) × S

pub data CommandError (E : Type 0) : Type 0 where
  invalid_argument : CommandError E
  store_error : E → CommandError E

module _ (u : Unicode) {S E : Type 0} (store : StopListStore S E) (has_updater : Bool) where
  -- `Sync`; no error is nil
  unfoldable pub sync : S × Service → Option (CommandError E) × (S × Service)
  sync (st, norm) =
      if has_updater
      then (let (r, st') = store.list st in
          elim r [
            | inl err ↦ (some (store_error err), (st', norm))
            | inr (words, version) ↦ (none, (st', replace_stop_words u words norm))
          ])
      else (none, (st, norm))

  -- The common end of `Add` and `Remove`, for what the store answered: the version and the error.
  unfoldable pub finish_command :
      (E ⊎ ℤ) × S → Service → (ℤ × Option (CommandError E)) × (S × Service)
  unfolding sync
  finish_command (inl err, st) norm = ((pos 0, some (store_error err)), (st, norm))
  finish_command (inr version, st) norm = let (r, s) = sync (st, norm) in ((version, r), s)

  unfoldable pub add_word : Str → S × Service → (ℤ × Option (CommandError E)) × (S × Service)
  unfolding finish_command
  add_word word (st, norm) =
      let w = trim_space (to_lower u word) in
      if is_empty w
      then ((pos 0, some invalid_argument), (st, norm))
      else finish_command (store.add w st) norm

  unfoldable pub remove_word : Str → S × Service → (ℤ × Option (CommandError E)) × (S × Service)
  unfolding finish_command
  remove_word word (st, norm) =
      let w = trim_space (to_lower u word) in
      if is_empty w
      then ((pos 0, some invalid_argument), (st, norm))
      else finish_command (store.remove w st) norm

  -- `List`
  unfoldable pub list_words : S × Service → (E ⊎ (List Str × ℤ)) × (S × Service)
  list_words (st, norm) = let (r, st') = store.list st in (r, (st', norm))
