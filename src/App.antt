-- ===== src/App.antt =====
-- internal/app/service.go: `Run`, with the goroutines of the HTTP server and of the consumer. What
-- happens in it is a relation of steps, since `select` and the goroutines take turns in any order.
mod Reports
pub mod Counts
pub mod Runs
use wb_trial_task.Common.{
  ℕ, ◌≤◌, ◌≡◌, Bool, true, false, ◌&&◌, Option, none, some, List, [], ◌∷◌, ◌++◌, if◌then◌else◌,
  length,
}

pub data RunError (E : Type 0) : Type 0 where
  http_server_required : RunError E
  ended : E → RunError E  -- the error of the context, of the server or of the consumer

-- A `Run`: which goroutines are at work, the channel of errors, whether the context is done, and
-- what `Run` has returned, if it has.
pub record App (E : Type 0) : Type 0 where
  pub serving : Bool
  pub consuming : Bool
  pub err_ch : List E
  pub cancelled : Bool
  pub returned : Option (RunError E)

-- The state behind the `go` statements. The flags say which dependencies are not nil.
unfoldable pub start : {E : Type 0} → Bool → Bool → Bool → App E
start has_server has_consumer has_handle = record {
  serving = has_server;
  consuming = has_server && has_consumer && has_handle;
  err_ch = [];
  cancelled = false;
  returned = if has_server then none else some http_server_required;
}

-- What a goroutine leaves in the channel at its end: an error that is not to be ignored.
abbrev pub report : {E : Type 0} → (E → Bool) → Option E → List E → List E
report ignored none ch = ch
report ignored (some err) ch = if ignored err then ch else ch ++ (err ∷ [])

-- What happens in a run: the server or the consumer ends, with an error or without one, the context
-- is done, and `Run` returns.
pub data Event (E : Type 0) : Type 0 where
  server_end : Option E → Event E
  consumer_end : Option E → Event E
  context_done : Event E
  run_return : Event E

-- The steps. The channel has room for two errors, and a goroutine waits where there is none. The
-- errors of `ErrServerClosed` and of `Canceled` are ignored; `ctx_err` is that of the context.
pub data Step {E : Type 0} (server_closed canceled : E → Bool) (ctx_err : E)
    : Event E → App E → App E → Type 0 where
  server_ends :
      (a : App E) (r : Option E)
      → a.serving ≡ true
      → length (report server_closed r a.err_ch) ≤ 2
      → Step server_closed canceled ctx_err
          (server_end r)
          a
          (record a { serving = false; err_ch = report server_closed r a.err_ch })
  consumer_ends :
      (a : App E) (r : Option E)
      → a.consuming ≡ true
      → length (report canceled r a.err_ch) ≤ 2
      → Step server_closed canceled ctx_err
          (consumer_end r)
          a
          (record a { consuming = false; err_ch = report canceled r a.err_ch })
  cancel :
      (a : App E)
      → a.cancelled ≡ false
      → Step server_closed canceled ctx_err context_done a (record a { cancelled = true })
  return_cancelled :
      (a : App E)
      → a.returned ≡ none
      → a.cancelled ≡ true
      → Step server_closed canceled ctx_err run_return a
          (record a { returned = some (ended ctx_err) })
  return_error :
      (a : App E) (err : E) (rest : List E)
      → a.returned ≡ none
      → a.err_ch ≡ err ∷ rest
      → Step server_closed canceled ctx_err run_return a
          (record a { err_ch = rest; returned = some (ended err) })
