-- ===== src/Kafka/Progress.antt =====
-- The loop of `Run` where nothing fails: each message is handled once and committed.
use wb_trial_task.Common.{ℕ, zero, suc, ◌≡◌, refl, none, inr, pos_part}
use wb_trial_task.Kafka.Settings.{Config}
use wb_trial_task.Kafka.Consumer.{
  Outside, handle_attempts, handle_with_retry, commit_attempts, commit_with_retry, process, consume,
}

module _ {S M E : Type 0} (o : Outside S M E) (cfg : Config) where
  handle_attempts_once :
      (attempt left : ℕ) (msg : M) (s : S)
      → (o.handler msg s).0 ≡ none
      → handle_attempts o cfg attempt left msg s ≡ (none, (o.handler msg s).1)
  unfolding handle_attempts
  handle_attempts_once attempt zero msg s ok = rw (ok, handle_attempts) refl
  handle_attempts_once attempt (suc left) msg s ok = rw (ok, handle_attempts) refl

  commit_attempts_once :
      (attempt left : ℕ) (msg : M) (s : S)
      → (o.commit_messages msg s).0 ≡ none
      → commit_attempts o cfg attempt left msg s ≡ (none, (o.commit_messages msg s).1)
  unfolding commit_attempts
  commit_attempts_once attempt zero msg s ok = rw (ok, commit_attempts) refl
  commit_attempts_once attempt (suc left) msg s ok = rw (ok, commit_attempts) refl

  pub consume_once :
      (msg : M) (s : S)
      → (o.fetch_message s).0 ≡ inr msg
      → let s₁ = (o.fetch_message s).1 in
        let s₂ = (o.handler msg s₁).1 in
        (o.handler msg s₁).0 ≡ none
        → (o.commit_messages msg s₂).0 ≡ none
        → consume o cfg s ≡ (none, (o.commit_messages msg s₂).1)
  unfolding consume process handle_with_retry commit_with_retry
  consume_once msg s fetched handled committed =
      let s₁ = (o.fetch_message s).1 in
      let s₂ = (o.handler msg s₁).1 in
      let once = handle_attempts_once 0 (pos_part cfg.max_processing_retries) msg s₁ handled in
      rw (fetched, consume, once, process)
        (rw (once) (commit_attempts_once 0 (pos_part cfg.commit_retries) msg s₂ committed))
