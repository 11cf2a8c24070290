-- ===== src/Http/Admin.antt =====
-- handlers_stoplist.go: who may use the stop-list.
use wb_trial_task.Common.{
  ◌≡◌, refl, true, false, Option, none, some, Str, Str-discrete, is_empty, ◌≢◌, ◌⊎◌, inl, inr,
  arith, Bool-cases, Option-cases, Sum-cases, if_pos, if_neg,
}
use wb_trial_task.Clock.{Time}
use wb_trial_task.Normalizer.{trim_space}
use wb_trial_task.Http.Response.{Response, write_error, code_unauthorized, msg_invalid_admin_auth}
use wb_trial_task.Http.Ports.{Api, StopListCommands}
use wb_trial_task.Http.StopHandlers.{
  list_authorized, add_authorized, remove_authorized, authorize_admin, guarded, list_stop_words,
  add_stop_word, delete_stop_word,
}

-- The header holds the token of the administrator, and there is one.
abbrev pub IsAdmin : {S E : Type 0} → Api S E → Str → Type 0
IsAdmin api header = (is_empty api.admin_token ≡ false) × (trim_space header ≡ api.admin_token)

abbrev pub unauthorized : Response
unauthorized = write_error 401 code_unauthorized msg_invalid_admin_auth

abbrev Granted : {S : Type 0} → Response × S → Type 0
Granted x = x.0.status ≢ 401

module _ {S E : Type 0} (api : Api S E) where
  authorize_admin-IsAdmin :
      (header : Str)
      → ((authorize_admin api header ≡ true) × IsAdmin api header)
        ⊎ ((authorize_admin api header ≡ false) × ¬ (IsAdmin api header))
  unfolding authorize_admin
  authorize_admin-IsAdmin header = elim (Bool-cases (is_empty api.admin_token)) [
    | inl empty ↦ inr (rw (empty) refl, λ h. cc)
    | inr full ↦ elim (Str-discrete (trim_space header) api.admin_token) [
      | yes same ↦ inl (
        rw (full, if_pos (Str-discrete (trim_space header) api.admin_token) same) refl,
        (full, same),
      )
      | no other ↦ inr (
        rw (full, if_neg (Str-discrete (trim_space header) api.admin_token) other) refl,
        λ h. other h.1,
      )
    ]
  ]

  list_authorized-Granted :
      (stop : StopListCommands S E) (now : Time) (s : S) → Granted (list_authorized stop now s)
  unfolding list_authorized
  list_authorized-Granted stop now s = elim (Sum-cases (stop.list s).0) [
    | inl (err, failure) ↦ rw (failure, list_authorized) (λ e. ground arith)
    | inr (answer, given) ↦ rw (given, list_authorized) (λ e. ground arith)
  ]

  add_authorized-Granted :
      (stop : StopListCommands S E) (word : Option Str) (s : S)
      → Granted (add_authorized stop word s)
  unfolding add_authorized
  add_authorized-Granted stop none s = λ h. ground arith
  add_authorized-Granted stop (some word) s = elim (Option-cases (stop.add word s).0.1) [
    | inr (err, failure) ↦ rw (failure, add_authorized) (λ e. ground arith)
    | inl done ↦ rw (done, add_authorized) (λ e. ground arith)
  ]

  remove_authorized-Granted :
      (stop : StopListCommands S E) (path_value : Str) (s : S)
      → Granted (remove_authorized stop path_value s)
  unfolding remove_authorized
  remove_authorized-Granted stop path_value s =
      elim (Option-cases (stop.remove (trim_space path_value) s).0.1) [
        | inr (err, failure) ↦ rw (failure, remove_authorized) (λ e. ground arith)
        | inl done ↦ rw (done, remove_authorized) (λ e. ground arith)
      ]

  guarded-Granted :
      (header : Str) (handler : StopListCommands S E → S → Response × S) (s : S)
      → ((stop : StopListCommands S E) → Granted (handler stop s))
      → authorize_admin api header ≡ true
      → Granted (guarded api header handler s)
  unfolding guarded
  guarded-Granted header handler s h granted = elim (Option-cases api.stop) [
    | inl absent ↦ rw (granted, absent, guarded) (λ e. ground arith)
    | inr (stop, present) ↦ rw (granted, present, guarded) (h stop)
  ]

  guarded-denied :
      (header : Str) (handler : StopListCommands S E → S → Response × S) (s : S)
      → authorize_admin api header ≡ false
      → guarded api header handler s ≡ (unauthorized, s)
  unfolding guarded
  guarded-denied header handler s denied = rw (denied, guarded) refl

  -- Each request on the stop-list is answered with 401 and changes nothing, unless its header
  -- holds, but for white space around it, the token of the administrator, which is not empty; then
  -- it is not answered with 401.
  pub stop_list-IsGuarded :
      (header : Str) (now : Time) (word : Option Str) (path_value : Str) (s : S)
      → let denied : Response × S = (unauthorized, s) in
        (IsAdmin api header
          × Granted (list_stop_words api header now s)
          × Granted (add_stop_word api header word s)
          × Granted (delete_stop_word api header path_value s))
        ⊎ (¬ (IsAdmin api header)
            × (list_stop_words api header now s ≡ denied)
            × (add_stop_word api header word s ≡ denied)
            × (delete_stop_word api header path_value s ≡ denied))
  unfolding list_stop_words add_stop_word delete_stop_word
  stop_list-IsGuarded header now word path_value s = elim (authorize_admin-IsAdmin header) [
    | inl (granted, admin) ↦ inl (
      admin,
      guarded-Granted header (λ stop. list_authorized stop now) s
          (λ stop. list_authorized-Granted stop now s) granted,
      guarded-Granted header (λ stop. add_authorized stop word) s
          (λ stop. add_authorized-Granted stop word s) granted,
      guarded-Granted header (λ stop. remove_authorized stop path_value) s
          (λ stop. remove_authorized-Granted stop path_value s) granted,
    )
    | inr (denied, other) ↦ inr (
      other,
      guarded-denied header (λ stop. list_authorized stop now) s denied,
      guarded-denied header (λ stop. add_authorized stop word) s denied,
      guarded-denied header (λ stop. remove_authorized stop path_value) s denied,
    )
  ]
