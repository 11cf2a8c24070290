-- ===== src/Tests/App.antt =====
-- A run of the service in which the consumer ends with an error.
use wb_trial_task.Common.{ℕ, ◌≤◌, refl, Bool, true, false, some, List, [], ◌∷◌, ◌==◌, arith}
use wb_trial_task.App.{
  App, start, ended, Event, server_end, consumer_end, run_return, consumer_ends, return_error,
}
use wb_trial_task.App.Runs.{Reached, here, next, NeverWaits, IsPrompt, IsReason, run-Terminates}

-- The error 0 is `ErrServerClosed`, and 1 is `Canceled`.
abbrev server_closed : ℕ → Bool
server_closed err = err == 0

abbrev canceled : ℕ → Bool
canceled err = err == 1

abbrev ended_by_consumer : App ℕ
ended_by_consumer = record {
  serving = true;
  consuming = false;
  err_ch = [];
  cancelled = false;
  returned = some (ended 7);
}

-- The last event first.
abbrev two_events : List (Event ℕ)
two_events = run_return ∷ consumer_end (some 7) ∷ []

two_steps : Reached server_closed canceled 1 (start true true true) two_events ended_by_consumer
unfolding start
two_steps = next (next here (consumer_ends (start true true true) (some 7) refl (omega arith))) (
    return_error (record (start true true true) { consuming = false; err_ch = 7 ∷ [] }) 7 [] refl
      refl)

run-Terminates_example :
    (2 ≤ 4)
    × NeverWaits server_closed canceled 1 server_end true ended_by_consumer
    × NeverWaits server_closed canceled 1 consumer_end false ended_by_consumer
    × IsPrompt server_closed canceled 1 two_events ended_by_consumer
    × IsReason server_closed canceled 1 true two_events (some (ended 7))
run-Terminates_example =
    run-Terminates server_closed canceled 1 true true true two_events ended_by_consumer two_steps
