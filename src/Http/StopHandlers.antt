-- ===== src/Http/StopHandlers.antt =====
-- handlers_stoplist.go. `header` is the request's `X-Admin-Token`, and empty where there is none.
use wb_trial_task.Common.{
  Bool, true, false, not, ◌&&◌, Option, none, some, Str, Str-discrete, is_empty, ite, if◌then◌else◌,
  inl, inr, ◌||◌,
}
use wb_trial_task.Clock.{Time, unix_milli}
use wb_trial_task.Normalizer.{trim_space}
use wb_trial_task.Http.Response.{
  Response, write_json, write_error, words_body, version_body, code_unavailable, code_conflict,
  code_invalid_argument, code_unauthorized, code_not_found, msg_stop_list_unavailable,
  msg_invalid_json, msg_word_empty, msg_word_already_exist, msg_word_not_found,
  msg_invalid_admin_auth,
}
use wb_trial_task.Http.Ports.{
  Api, StopListCommands, err_invalid_argument, err_already_exists, err_not_found,
}

module _ {S E : Type 0} (stop : StopListCommands S E) where
  -- The answers to an error of `Add` and of `Remove`.
  abbrev pub add_failed : E → Response
  add_failed err =
      if stop.errors_is err err_invalid_argument
      then write_error 400 code_invalid_argument msg_word_empty
      else if stop.errors_is err err_already_exists
      then write_error 409 code_conflict msg_word_already_exist
      else write_error 503 code_unavailable msg_stop_list_unavailable

  abbrev pub remove_failed : Str → E → Response
  remove_failed word err =
      if stop.errors_is err err_invalid_argument || is_empty word
      then write_error 400 code_invalid_argument msg_word_empty
      else if stop.errors_is err err_not_found
      then write_error 404 code_not_found msg_word_not_found
      else write_error 503 code_unavailable msg_stop_list_unavailable

  -- The handlers behind their guards. `word` of an `Add` is what the body decodes to, if it does.
  unfoldable pub list_authorized : Time → S → Response × S
  list_authorized now s =
      let (r, s') = stop.list s in
      elim r [
        | inl err ↦ (write_error 503 code_unavailable msg_stop_list_unavailable, s')
        | inr (words, version) ↦ (write_json 200 (words_body version words (unix_milli now)), s')
      ]

  unfoldable pub add_authorized : Option Str → S → Response × S
  add_authorized none s = (write_error 400 code_invalid_argument msg_invalid_json, s)
  add_authorized (some word) s =
      let ((version, r), s') = stop.add word s in
      elim r [
        | some err ↦ (add_failed err, s')
        | none ↦ (write_json 201 (version_body version), s')
      ]

  unfoldable pub remove_authorized : Str → S → Response × S
  remove_authorized path_value s =
      let word = trim_space path_value in
      let ((version, r), s') = stop.remove word s in
      elim r [
        | some err ↦ (remove_failed word err, s')
        | none ↦ (write_json 200 (version_body version), s')
      ]

module _ {S E : Type 0} (api : Api S E) where
  -- `authorizeAdmin`
  unfoldable pub authorize_admin : Str → Bool
  authorize_admin header =
      not (is_empty api.admin_token)
      && ite (Str-discrete (trim_space header) api.admin_token) true false

  -- `authorizeAdmin` and `ensureStopListService`, with what they write
  unfoldable pub guarded : Str → (StopListCommands S E → S → Response × S) → S → Response × S
  unfolding authorize_admin
  guarded header handler s =
      if authorize_admin header
      then elim api.stop [
        | none ↦ (write_error 503 code_unavailable msg_stop_list_unavailable, s)
        | some stop ↦ handler stop s
      ]
      else (write_error 401 code_unauthorized msg_invalid_admin_auth, s)

  unfoldable pub list_stop_words : Str → Time → S → Response × S
  unfolding list_authorized guarded
  list_stop_words header now s = guarded header (λ stop. list_authorized stop now) s

  unfoldable pub add_stop_word : Str → Option Str → S → Response × S
  unfolding add_authorized guarded
  add_stop_word header word s = guarded header (λ stop. add_authorized stop word) s

  unfoldable pub delete_stop_word : Str → Str → S → Response × S
  unfolding remove_authorized guarded
  delete_stop_word header path_value s =
      guarded header (λ stop. remove_authorized stop path_value) s
