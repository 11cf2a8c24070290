-- ===== src/Tests/Fraud.antt =====
-- The evaluator on small inputs.
use wb_trial_task.Common.{
  ◌*◌, ◌≡◌, ◌≤◌, refl, ◌≢◌, none, List, [], ◌∷◌, arith, Str, Str-discrete, runes, inl, inr,
  pos_part,
}
use wb_trial_task.Common.Dict.{lookup, insert, erase, retain}
use wb_trial_task.Clock.{second}
use wb_trial_task.Domain.{RejectReason, Cause}
use wb_trial_task.AntiFraud.{
  new_fail_closed_evaluator, evaluate, evaluate_at, validate_config, cleanup, clean_sessions,
  prune_events, prune_session_state, blocked, session_blocked, limit_rate, roll_minute,
  count_request, contribute, contribution_key, identity_keys, capped_key, mark_keys,
  mark_contributions, track_session, observe, reject_with,
}
use wb_trial_task.AntiFraud.Calls.{Call, apply_call, run_calls}
use wb_trial_task.AntiFraud.Guards.{Passes, evaluate-Passes}
use wb_trial_task.AntiFraud.Caps.{contribution_counts_once}
use wb_trial_task.AntiFraud.RateLimit.{accepted_of, accepted_of-le-limit}
use wb_trial_task.AntiFraud.Blocks.{rate_limited, rate_limit_blocks_ip}
use wb_trial_task.AntiFraud.Session.{AllSessions, SessionOk}
use wb_trial_task.AntiFraud.Entropy.{run_calls-sessions}
use wb_trial_task.Tests.Data.{strict_config, strict_evaluator, call_at, phone, case}

abbrev ip : Str
ip = runes "1"

abbrev session : Str
session = runes "s"

abbrev first_call : Call
first_call = call_at 60 ip session phone

abbrev again : Call
again = call_at 70 ip session phone

first_call_passes : (apply_call first_call strict_evaluator).0 ≡ none
unfolding evaluate evaluate_at validate_config cleanup clean_sessions blocked limit_rate roll_minute
    count_request contribute contribution_key identity_keys capped_key mark_keys mark_contributions
    track_session observe prune_session_state prune_events lookup insert erase retain Str-discrete
    new_fail_closed_evaluator
first_call_passes = refl

evaluate-Passes_example :
    Passes first_call strict_evaluator (apply_call first_call strict_evaluator).1
evaluate-Passes_example = evaluate-Passes first_call strict_evaluator first_call_passes

-- The same query from the same session of another ip, and another query in between.
contribution_counts_once_example :
    (apply_call
      (call_at 80 (runes "2") session phone)
      (run_calls (call_at 70 ip session case ∷ []) (apply_call first_call strict_evaluator).1)).0
    ≢ none
unfolding new_fail_closed_evaluator identity_keys
contribution_counts_once_example =
    contribution_counts_once first_call (call_at 80 (runes "2") session phone)
      (call_at 70 ip session case ∷ []) (runes "session:s") strict_evaluator first_call_passes
      (inr (inl refl)) (inr (inl refl)) refl (omega arith, tt) (omega arith)

-- Three calls in one minute by an ip that may make two.
abbrev burst : List Call
burst = first_call ∷ call_at 61 ip (runes "t") case ∷ call_at 62 ip (runes "u") (runes "cable") ∷ []

accepted_of-le-limit_example :
    accepted_of ip burst strict_evaluator
    ≤ pos_part strict_evaluator.cfg.max_requests_per_minute_per_ip
accepted_of-le-limit_example =
    accepted_of-le-limit 1 ip burst strict_evaluator (refl, (refl, (refl, tt)))

-- The evaluator after two calls of the minute: the third is over the limit.
third_call_limited :
    (apply_call
      (call_at 62 ip (runes "u") (runes "cable"))
      (run_calls (first_call ∷ call_at 61 ip (runes "t") case ∷ []) strict_evaluator)).0
    ≡ rate_limited
unfolding run_calls evaluate evaluate_at validate_config cleanup clean_sessions blocked
    session_blocked limit_rate roll_minute count_request contribute contribution_key identity_keys
    capped_key mark_keys mark_contributions track_session observe prune_session_state prune_events
    lookup insert erase retain Str-discrete new_fail_closed_evaluator
third_call_limited = refl

rate_limit_blocks_ip_example :
    (apply_call (call_at 90 ip (runes "v") phone) (
      run_calls
        (call_at 80 (runes "2") session case ∷ [])
        (apply_call
          (call_at 62 ip (runes "u") (runes "cable"))
          (run_calls (first_call ∷ call_at 61 ip (runes "t") case ∷ []) strict_evaluator)).1)).0
    ≡ reject_with RejectReason.anti_fraud_ip_blocked (Cause.ip_blocked_until (162 * second))
unfolding validate_config new_fail_closed_evaluator run_calls evaluate evaluate_at cleanup
    clean_sessions blocked limit_rate roll_minute count_request contribute contribution_key
    identity_keys capped_key mark_keys mark_contributions track_session observe prune_session_state
    prune_events lookup insert erase retain Str-discrete
rate_limit_blocks_ip_example =
    rate_limit_blocks_ip (call_at 62 ip (runes "u") (runes "cable"))
      (call_at 90 ip (runes "v") phone) (call_at 80 (runes "2") session case ∷ [])
      (run_calls (first_call ∷ call_at 61 ip (runes "t") case ∷ []) strict_evaluator)
      third_call_limited refl (refl, refl, refl, refl) (omega arith, tt) (omega arith)

run_calls-sessions_example :
    AllSessions
      (SessionOk 2)
      (run_calls burst (new_fail_closed_evaluator strict_config)).session_entropy
run_calls-sessions_example = run_calls-sessions strict_config burst
