-- ===== src/Kafka/Delivery.antt =====
-- Delivery at least once: an offset is committed only after its message was handled, and the loop
-- does not leave a message behind.
use wb_trial_task.Common.{
  ℕ, zero, suc, ◌+◌, ◌≡◌, refl, Bool, none, List, [], ◌∷◌, arith, pos_part, Option-cases, inl, inr,
  ◌⊎◌,
}
use wb_trial_task.Kafka.Settings.{Config, backoff}
use wb_trial_task.Kafka.Consumer.{
  Outside, handle_attempts, handle_with_retry, commit_attempts, commit_with_retry,
  wait_before_retry, process, consume, run_rounds, run, gives_up,
}
use wb_trial_task.Kafka.Retries.{
  Entry, handled, not_handled, committed, not_committed, traced, wait-log,
}

abbrev pub Was : {M : Type 0} → Entry M → List (Entry M) → Type 0
Was x [] = ⊥
Was x (y ∷ log) = (y ≡ x) ⊎ Was x log

-- Every commit in the log comes after a successful call of the handler for its message.
abbrev pub CommitsHandled : {M : Type 0} → List (Entry M) → Type 0
CommitsHandled [] = Unit
CommitsHandled (handled m ∷ log) = CommitsHandled log
CommitsHandled (not_handled m ∷ log) = CommitsHandled log
CommitsHandled (committed m ∷ log) = Was (handled m) log × CommitsHandled log
CommitsHandled (not_committed m ∷ log) = CommitsHandled log

module _ {W M E : Type 0} (o : Outside W M E) (cfg : Config) where
  handle_attempts-log :
      (attempt left : ℕ) (msg : M) (s : W × List (Entry M))
      → CommitsHandled s.1
      → let (r, s') = handle_attempts (traced o) cfg attempt left msg s in
        CommitsHandled s'.1 × (r ≡ none → Was (handled msg) s'.1)
  unfolding handle_attempts
  handle_attempts-log attempt zero msg s h = elim (Option-cases (o.handler msg s.0).0) [
    | inl ok ↦ rw (ok, handle_attempts, traced) (rw ok (h, λ _. inl refl))
    | inr (err, bad) ↦ rw (bad, handle_attempts, traced) (rw bad (h, λ n. cc))
  ]
  handle_attempts-log attempt (suc left) msg s h = elim (Option-cases (o.handler msg s.0).0) [
    | inl ok ↦ rw (ok, handle_attempts, traced) (rw ok (h, λ _. inl refl))
    | inr (err, bad) ↦
        let d = backoff attempt cfg.retry_backoff cfg.retry_backoff_max in
        let s₁ : W × List (Entry M) = ((o.handler msg s.0).1, not_handled msg ∷ s.1) in
        rw (bad, handle_attempts, traced)
          (rw bad (
            handle_attempts-log (attempt + 1) left msg (wait_before_retry (traced o) cfg d s₁)
              (rw (wait-log o cfg d s₁) h)))
  ]

  commit_attempts-log :
      (attempt left : ℕ) (msg : M) (s : W × List (Entry M))
      → CommitsHandled s.1
      → Was (handled msg) s.1
      → let (r, s') = commit_attempts (traced o) cfg attempt left msg s in
        CommitsHandled s'.1 × (r ≡ none → Was (committed msg) s'.1)
  unfolding commit_attempts
  commit_attempts-log attempt zero msg s h w = elim (Option-cases (o.commit_messages msg s.0).0) [
    | inl ok ↦ rw (ok, commit_attempts, traced) (rw ok ((w, h), λ _. inl refl))
    | inr (err, bad) ↦
        let s₁ : W × List (Entry M) = ((o.commit_messages msg s.0).1, not_committed msg ∷ s.1) in
        elim (Option-cases (gives_up (traced o) cfg err s₁)) [
          | inl tries ↦ rw (bad, commit_attempts, traced) (rw bad (rw tries (rw bad (h, λ n. cc))))
          | inr (e, stop) ↦
              rw (bad, commit_attempts, traced) (rw bad (rw stop (rw bad (h, λ n. cc))))
        ]
  ]
  commit_attempts-log attempt (suc left) msg s h w =
      elim (Option-cases (o.commit_messages msg s.0).0) [
        | inl ok ↦ rw (ok, commit_attempts, traced) (rw ok ((w, h), λ _. inl refl))
        | inr (err, bad) ↦
            let s₁ : W × List (Entry M) =
              ((o.commit_messages msg s.0).1, not_committed msg ∷ s.1) in
            let d = cfg.commit_retry_backoff in
            elim (Option-cases (gives_up (traced o) cfg err s₁)) [
              | inr (e, stop) ↦
                  rw (bad, commit_attempts, traced) (rw bad (rw stop (rw bad (h, λ n. cc))))
              | inl tries ↦
                  rw (bad, commit_attempts, traced)
                    (rw bad (
                      rw tries (
                        rw bad (
                          commit_attempts-log (attempt + 1) left msg
                            (wait_before_retry (traced o) cfg d s₁) (rw (wait-log o cfg d s₁) h)
                            (rw (wait-log o cfg d s₁) (inr w))))))
            ]
      ]

  -- For one message: its calls keep the log in order, and without an error it is committed.
  process-log :
      (msg : M) (s : W × List (Entry M))
      → CommitsHandled s.1
      → let (r, s') = process (traced o) cfg msg s in
        CommitsHandled s'.1 × (r ≡ none → Was (committed msg) s'.1)
  unfolding process handle_with_retry commit_with_retry
  process-log msg s h =
      let (c, done) = handle_attempts-log 0 (pos_part cfg.max_processing_retries) msg s h in
      let (r, s₁) = handle_attempts (traced o) cfg 0 (pos_part cfg.max_processing_retries) msg s in
      elim (Option-cases r) [
        | inl ok ↦
            rw (ok, process)
              (commit_attempts-log 0 (pos_part cfg.commit_retries) msg s₁ c (done ok))
        | inr (e, stop) ↦ rw (stop, process) (c, λ n. cc)
      ]

  -- From a log in which every commit came after its handling, a round of the loop that fetched a
  -- message goes on only if the message was committed.
  pub consume-committed :
      (msg : M) (s : W × List (Entry M))
      → CommitsHandled s.1
      → (o.fetch_message s.0).0 ≡ inr msg
      → (consume (traced o) cfg s).0 ≡ none
      → Was (committed msg) (consume (traced o) cfg s).1.1
  unfolding consume
  consume-committed msg s h fetched goes_on =
      let (c, done) = process-log msg ((o.fetch_message s.0).1, s.1) h in
      rw (fetched, consume, traced) (done (rw (fetched, consume, traced) at goes_on))

  consume-CommitsHandled :
      (s : W × List (Entry M)) → CommitsHandled s.1 → CommitsHandled (consume (traced o) cfg s).1.1
  unfolding consume
  consume-CommitsHandled s h = elim (fetched_cases (o.fetch_message s.0).0) [
    | inl (err, failed) ↦ rw (failed, consume, traced) h
    | inr (msg, found) ↦
        rw (found, consume, traced) (process-log msg ((o.fetch_message s.0).1, s.1) h).0
  ]
    where
      fetched_cases : (r : E ⊎ M) → ((err : E) × (r ≡ inl err)) ⊎ ((msg : M) × (r ≡ inr msg))
      fetched_cases (inl err) = inl (err, refl)
      fetched_cases (inr msg) = inr (msg, refl)

  run_rounds-CommitsHandled :
      (rounds : ℕ) (s : W × List (Entry M))
      → CommitsHandled s.1
      → CommitsHandled (run_rounds (traced o) cfg rounds s).1.1
  unfolding run_rounds
  run_rounds-CommitsHandled zero s h = h
  run_rounds-CommitsHandled (suc rounds) s h =
      let c = consume-CommitsHandled s h in
      elim (Option-cases (consume (traced o) cfg s).0) [
        | inl goes_on ↦
            rw (goes_on, run_rounds)
              (run_rounds-CommitsHandled rounds (consume (traced o) cfg s).1 c)
        | inr (e, stop) ↦ rw (stop, run_rounds) c
      ]

  -- Whatever the reader and the handler do, after any number of rounds of `Run` every commit came
  -- after a successful call of the handler for its message.
  pub run-CommitsHandled :
      (has_handler has_reader : Bool) (rounds : ℕ) (w : W)
      → CommitsHandled (run (traced o) cfg has_handler has_reader rounds (w, [])).1.1
  unfolding run
  run-CommitsHandled has_handler has_reader rounds w =
      ground (arith, run_rounds-CommitsHandled rounds (w, []) tt)
