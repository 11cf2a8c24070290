-- ===== src/Kafka/Consumer.antt =====
-- `Run` and its two retry loops, over the reader of the Kafka library and a handler.
use wb_trial_task.Common.{
  ℕ, zero, suc, ◌+◌, Bool, Option, none, some, pos, pos_part, leb_ℤ, if◌then◌else◌, ◌⊎◌, inl, inr,
}
use wb_trial_task.Clock.{Duration}
use wb_trial_task.Kafka.Settings.{Config, backoff}

-- What the loop reaches outside: the reader, the handler and the context, on a state `S`. `M` is a
-- message and `E` an error.
pub record Outside (S M E : Type 0) : Type 0 where
  pub fetch_message : S → (E ⊎ M) × S
  pub commit_messages : M → S → Option E × S
  pub close : S → S
  pub handler : M → S → Option E × S  -- on the message's value
  pub ctx_err : S → Option E
  pub wait_done : S → S  -- `<-ctx.Done()`
  pub wait_timer : Duration → S → S  -- the timer, or the end of the context before it
  pub is_rebalance : E → Bool  -- `ErrGenerationEnded` or `ErrGroupClosed`
  pub is_context_error : E → Bool  -- `Canceled` or `DeadlineExceeded`

pub data RunError (M E : Type 0) : Type 0 where
  handler_required reader_required : RunError M E
  stopped : E → RunError M E
  fetch_failed : E → RunError M E
  handler_failed : M → ℕ → E → RunError M E  -- with the number of attempts
  commit_failed : M → ℕ → E → RunError M E

module _ {S M E : Type 0} (o : Outside S M E) (cfg : Config) where
  -- `waitBeforeRetry`
  unfoldable pub wait_before_retry : Duration → S → S
  wait_before_retry delay s = if leb_ℤ delay (pos 0) then s else o.wait_timer delay s

  -- `handleWithRetry` from an attempt on, with the number of retries that are left.
  unfoldable pub handle_attempts : ℕ → ℕ → M → S → Option (RunError M E) × S
  handle_attempts attempt zero msg s =
      let (r, s') = o.handler msg s in
      elim r [ none ↦ (none, s') | some err ↦ (some (handler_failed msg (attempt + 1) err), s') ]
  handle_attempts attempt (suc left) msg s =
      let (r, s') = o.handler msg s in
      elim r [
        | none ↦ (none, s')
        | some err ↦
            handle_attempts (attempt + 1) left msg
              (wait_before_retry (backoff attempt cfg.retry_backoff cfg.retry_backoff_max) s')
      ]

  unfoldable pub handle_with_retry : M → S → Option (RunError M E) × S
  handle_with_retry msg s = handle_attempts 0 (pos_part cfg.max_processing_retries) msg s

  -- The reason, if there is one, for which `commitWithRetry` gives up before its attempts are
  -- over.
  unfoldable pub gives_up : E → S → Option (RunError M E)
  gives_up err s = elim (o.ctx_err s) [
    | some ctx_err ↦ some (stopped ctx_err)
    | none ↦ if o.is_context_error err then some (stopped err) else none
  ]

  -- `commitWithRetry` likewise
  unfoldable pub commit_attempts : ℕ → ℕ → M → S → Option (RunError M E) × S
  commit_attempts attempt zero msg s =
      let (r, s') = o.commit_messages msg s in
      elim r [
        | none ↦ (none, s')
        | some err ↦ elim (gives_up err s') [
          | some e ↦ (some e, s')
          | none ↦ (some (commit_failed msg (attempt + 1) err), s')
        ]
      ]
  commit_attempts attempt (suc left) msg s =
      let (r, s') = o.commit_messages msg s in
      elim r [
        | none ↦ (none, s')
        | some err ↦ elim (gives_up err s') [
          | some e ↦ (some e, s')
          | none ↦
              commit_attempts (attempt + 1) left msg (wait_before_retry cfg.commit_retry_backoff s')
        ]
      ]

  unfoldable pub commit_with_retry : M → S → Option (RunError M E) × S
  commit_with_retry msg s = commit_attempts 0 (pos_part cfg.commit_retries) msg s

  -- the error with which `Run` ends when a fetch failed, if it does not go on
  unfoldable pub fetch_error : E → S → Option (RunError M E)
  fetch_error err s = if o.is_rebalance err then none else elim (o.ctx_err s) [
    | some ctx_err ↦ some (stopped ctx_err)
    | none ↦ if o.is_context_error err then some (stopped err) else some (fetch_failed err)
  ]

  -- the two calls for a message that was fetched
  unfoldable pub process : M → S → Option (RunError M E) × S
  process msg s =
      let (r, s') = handle_with_retry msg s in
      elim r [ some e ↦ (some e, s') | none ↦ commit_with_retry msg s' ]

  -- The body of the loop of `Run`: the error with which it returns, or none to go on.
  unfoldable pub consume : S → Option (RunError M E) × S
  consume s =
      let (r, s') = o.fetch_message s in
      elim r [ inl err ↦ (fetch_error err s', s') | inr msg ↦ process msg s' ]

  -- The loop for a number of rounds; no error means that it has not returned by then.
  unfoldable pub run_rounds : ℕ → S → Option (RunError M E) × S
  run_rounds zero s = (none, s)
  run_rounds (suc rounds) s =
      let (r, s') = consume s in
      elim r [ some e ↦ (some e, o.close s') | none ↦ run_rounds rounds s' ]

  -- `Run` for a number of rounds of its loop. The flags say that the handler and the reader are
  -- not nil.
  unfoldable pub run : Bool → Bool → ℕ → S → Option (RunError M E) × S
  run has_handler has_reader rounds s =
      if has_handler
      then (if cfg.enabled
          then (if has_reader then run_rounds rounds s else (some reader_required, s))
          else (let s' = o.wait_done s in
              (elim (o.ctx_err s') [ none ↦ none | some err ↦ some (stopped err) ], s')))
      else (some handler_required, s)
