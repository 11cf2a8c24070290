-- ===== src/Tests/Kafka.antt =====
-- The consumer with a reader that gives a list of messages and a handler that refuses one of them.
use wb_trial_task.Common.{
  ℕ, ◌*◌, ◌^◌, ◌≤◌, ◌≡◌, refl, true, false, none, some, List, [], ◌∷◌, arith, ◌==◌, if◌then◌else◌,
  ◌⊎◌, inl, inr, runes, pos, min,
}
use wb_trial_task.Kafka.{
  Config, Outside, RunError, double, double_up_to, backoff, run, run_rounds, consume, process,
  handle_with_retry, handle_attempts, commit_with_retry, commit_attempts, wait_before_retry,
}
use wb_trial_task.Kafka.Backoff.{backoff-min}
use wb_trial_task.Kafka.Retries.{
  handled, committed, not_handled, handler_calls, traced, handle_with_retry-calls,
}
use wb_trial_task.Kafka.Delivery.{CommitsHandled, run-CommitsHandled}

-- The error 0 is the end of the messages, 1 is that of the handler.
abbrev fetch : List ℕ → (ℕ ⊎ ℕ) × List ℕ
fetch [] = (inl 0, [])
fetch (m ∷ ms) = (inr m, ms)

abbrev world : Outside (List ℕ) ℕ ℕ
world = record {
  fetch_message = fetch;
  commit_messages = λ m s. (none, s);
  close = λ s. s;
  handler = λ m s. (if m == 7 then some 1 else none, s);
  ctx_err = λ s. none;
  wait_done = λ s. s;
  wait_timer = λ d s. s;
  is_rebalance = λ e. false;
  is_context_error = λ e. false;
}

abbrev pub config : Config
config = record {
  enabled = true;
  brokers = [];
  topic = runes "search.events.v1";
  group_id = [];
  min_bytes = pos 0;
  max_bytes = pos 0;
  max_wait = pos 0;
  start_offset = pos 0;
  max_processing_retries = pos 2;
  retry_backoff = pos 100;
  retry_backoff_max = pos 150;
  commit_retries = pos 2;
  commit_retry_backoff = pos 100;
}

-- The message 7 is handled three times and not committed, and `Run` ends with an error.
run_test : run (traced world) config true true 5 (3 ∷ 7 ∷ [], []) ≡ (
  some (RunError.handler_failed 7 3 1),
  ([], not_handled 7 ∷ not_handled 7 ∷ not_handled 7 ∷ committed 3 ∷ handled 3 ∷ []),
)
unfolding run run_rounds consume process handle_with_retry handle_attempts commit_with_retry
    commit_attempts wait_before_retry backoff double_up_to double
run_test = refl

run-CommitsHandled_example :
    CommitsHandled (run (traced world) config true true 5 (3 ∷ 7 ∷ [], [])).1.1
run-CommitsHandled_example = run-CommitsHandled world config true true 5 (3 ∷ 7 ∷ [])

handle_with_retry-calls_example :
    (handler_calls (handle_with_retry (traced world) config 7 ([], [])).1.1 ≤ 3)
    × (((handle_with_retry (traced world) config 7 ([], [])).0 ≡ none)
        ⊎ (handler_calls (handle_with_retry (traced world) config 7 ([], [])).1.1 ≡ 3))
handle_with_retry-calls_example = handle_with_retry-calls world config 7 ([], [])

backoff-min_example : backoff 3 (pos 100) (pos 3000) ≡ pos (min (100 * 2 ^ 3) 3000)
backoff-min_example = backoff-min 3 100 3000 (omega arith) (omega arith) (omega arith)
