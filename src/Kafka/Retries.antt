-- ===== src/Kafka/Retries.antt =====
-- The calls that the consumer makes, and how many of them a message can cause.
use wb_trial_task.Common.{
  ℕ, zero, suc, ◌+◌, ◌≤◌, ◌≡◌, Option, none, some, List, [], ◌∷◌, arith, pos_part, Option-cases,
  inl, inr, ◌⊎◌,
}
use wb_trial_task.Clock.{Duration}
use wb_trial_task.Kafka.Settings.{Config, backoff}
use wb_trial_task.Kafka.Consumer.{Outside, handle_attempts, handle_with_retry, wait_before_retry}

-- A call of the handler or of `CommitMessages`, by its result.
pub data Entry (M : Type 0) : Type 0 where
  handled not_handled committed not_committed : M → Entry M

module _ {M E : Type 0} where
  abbrev pub call_entry : (M → Entry M) → (M → Entry M) → M → Option E → Entry M
  call_entry good bad msg none = good msg
  call_entry good bad msg (some err) = bad msg

  -- The outside world `o`, with a log of the calls, most recent first.
  abbrev pub traced : {W : Type 0} → Outside W M E → Outside (W × List (Entry M)) M E
  traced o = record {
    fetch_message = λ s. let (r, w) = o.fetch_message s.0 in (r, (w, s.1));
    commit_messages = λ msg s.
        let (r, w) = o.commit_messages msg s.0 in
        (r, (w, call_entry committed not_committed msg r ∷ s.1));
    close = λ s. (o.close s.0, s.1);
    handler = λ msg s.
        let (r, w) = o.handler msg s.0 in (r, (w, call_entry handled not_handled msg r ∷ s.1));
    ctx_err = λ s. o.ctx_err s.0;
    wait_done = λ s. (o.wait_done s.0, s.1);
    wait_timer = λ d s. (o.wait_timer d s.0, s.1);
    is_rebalance = o.is_rebalance;
    is_context_error = o.is_context_error;
  }

-- The calls of the handler in a log.
abbrev pub handler_calls : {M : Type 0} → List (Entry M) → ℕ
handler_calls [] = 0
handler_calls (handled m ∷ log) = suc (handler_calls log)
handler_calls (not_handled m ∷ log) = suc (handler_calls log)
handler_calls (committed m ∷ log) = handler_calls log
handler_calls (not_committed m ∷ log) = handler_calls log

module _ {W M E : Type 0} (o : Outside W M E) (cfg : Config) where
  pub wait-log :
      (d : Duration) (s : W × List (Entry M)) → (wait_before_retry (traced o) cfg d s).1 ≡ s.1
  unfolding wait_before_retry
  wait-log d s = ground arith

  -- At most one call for each retry that is left and one more, and exactly so many on an error.
  handle_attempts-calls :
      (attempt left : ℕ) (msg : M) (s : W × List (Entry M))
      → let (r, s') = handle_attempts (traced o) cfg attempt left msg s in
        (handler_calls s'.1 ≤ handler_calls s.1 + left + 1)
        × ((r ≡ none) ⊎ (handler_calls s'.1 ≡ handler_calls s.1 + left + 1))
  unfolding handle_attempts
  handle_attempts-calls attempt zero msg s = elim (Option-cases (o.handler msg s.0).0) [
    | inl ok ↦ ground arith
    | inr (err, bad) ↦ ground arith
  ]
  handle_attempts-calls attempt (suc left) msg s =
      let (r, w) = o.handler msg s.0 in
      let later =
        wait_before_retry (traced o) cfg (backoff attempt cfg.retry_backoff cfg.retry_backoff_max)
          (w, call_entry handled not_handled msg r ∷ s.1) in
      ground (
        arith,
        handle_attempts-calls (attempt + 1) left msg later,
        wait-log (backoff attempt cfg.retry_backoff cfg.retry_backoff_max)
            (w, call_entry handled not_handled msg r ∷ s.1),
      )

  -- `handleWithRetry` calls the handler at most once more than `MaxProcessingRetries`, and exactly
  -- so often where it gives an error.
  pub handle_with_retry-calls :
      (msg : M) (s : W × List (Entry M))
      → let (r, s') = handle_with_retry (traced o) cfg msg s in
        (handler_calls s'.1 ≤ handler_calls s.1 + pos_part cfg.max_processing_retries + 1)
        × ((r ≡ none)
            ⊎ (handler_calls s'.1 ≡ handler_calls s.1 + pos_part cfg.max_processing_retries + 1))
  unfolding handle_with_retry
  handle_with_retry-calls msg s =
      handle_attempts-calls 0 (pos_part cfg.max_processing_retries) msg s
