-- ===== src/AntiFraud/Blocks.antt =====
-- The block lists: a source that broke a limit stays out until its block is over.
use wb_trial_task.Common.{
  ◌<◌, ◌≡◌, refl, ◌≢◌, false, Option, none, some, List, [], ◌∷◌, arith, ltb, Str, Str-discrete, All,
  is_empty,
}
use wb_trial_task.Common.Dict.{lookup, lookup-insert, lookup-retain-some}
use wb_trial_task.Clock.{Time, add_duration}
use wb_trial_task.Domain.{SearchEvent, RejectError, RejectReason, Cause}
use wb_trial_task.AntiFraud.State.{Evaluator, Config, cleanup, validate_config}
use wb_trial_task.AntiFraud.Rules.{
  reject_with, track_session, mark_contributions, contribute, limit_rate, roll_minute,
  count_request, blocked, evaluate_at, evaluate,
}
use wb_trial_task.AntiFraud.Calls.{
  Call, time_of, apply_call, run_calls, cleanup-cfg, evaluate-cfg, run_calls-cfg,
}

abbrev pub IpBlocked : Str → Time → Evaluator → Type 0
IpBlocked ip until e = lookup ip e.ip_blocked_until ≡ some until

pub cleanup-IpBlocked :
    (ip : Str) (until now : Time) (e : Evaluator)
    → now < until
    → IpBlocked ip until e
    → IpBlocked ip until (cleanup now e)
unfolding cleanup
cleanup-IpBlocked ip until now e lt h =
    ground (arith, lookup-retain-some (λ t. ltb now t) ip until e.ip_blocked_until h (ground arith))

-- While an ip is blocked, only another ip can get past the first check, and so no call touches
-- its entry.
blocked_self :
    (ip : Str) (until : Time) (evt : SearchEvent) (now : Time) (e : Evaluator)
    → now < until
    → evt.ip_hash ≡ ip
    → IpBlocked ip until e
    → blocked evt now e
      ≡ reject_with RejectReason.anti_fraud_ip_blocked (Cause.ip_blocked_until until)
unfolding blocked
blocked_self ip until evt now e lt same h =
    let found : lookup evt.ip_hash e.ip_blocked_until ≡ some until = rw same h in ground arith

limit_rate-IpBlocked :
    (ip : Str) (until : Time) (evt : SearchEvent) (q : Str) (now : Time) (e : Evaluator)
    → evt.ip_hash ≢ ip
    → IpBlocked ip until e
    → IpBlocked ip until (limit_rate evt q now e).1
unfolding limit_rate contribute mark_contributions track_session
limit_rate-IpBlocked ip until evt q now e other h = ground (
  arith,
  lookup-insert evt.ip_hash ip (add_duration now e.cfg.ip_block_duration) e.ip_blocked_until,
)

evaluate_at-IpBlocked :
    (ip : Str) (until : Time) (evt : SearchEvent) (q : Str) (now : Time) (e : Evaluator)
    → now < until
    → IpBlocked ip until e
    → IpBlocked ip until (evaluate_at evt q now e).1
unfolding evaluate_at
evaluate_at-IpBlocked ip until evt q now e lt h =
    let h' = cleanup-IpBlocked ip until now e lt h in
    elim (Str-discrete evt.ip_hash ip) [
      | yes same ↦ ground (arith, blocked_self ip until evt now (cleanup now e) lt same h')
      | no other ↦ ground (arith, limit_rate-IpBlocked ip until evt q now (cleanup now e) other h')
    ]

evaluate-IpBlocked :
    (ip : Str) (until : Time) (c : Call) (e : Evaluator)
    → time_of c < until
    → IpBlocked ip until e
    → IpBlocked ip until (apply_call c e).1
unfolding evaluate
evaluate-IpBlocked ip until c e lt h =
    ground (arith, evaluate_at-IpBlocked ip until c.event c.query (time_of c) e lt h)

run_calls-IpBlocked :
    (ip : Str) (until : Time) (calls : List Call) (e : Evaluator)
    → All (λ c. time_of c < until) calls
    → IpBlocked ip until e
    → IpBlocked ip until (run_calls calls e)
unfolding run_calls
run_calls-IpBlocked ip until [] e a h = h
run_calls-IpBlocked ip until (c ∷ calls) e a h =
    run_calls-IpBlocked ip until calls (apply_call c e).1 a.1
      (evaluate-IpBlocked ip until c e a.0 h)

abbrev pub rate_limited : Option RejectError
rate_limited = reject_with RejectReason.anti_fraud_ip_rate_limit Cause.ip_rate_limit_exceeded

track_session-not_limited :
    (evt : SearchEvent) (q : Str) (now : Time) (e : Evaluator)
    → (track_session evt q now e).0 ≢ rate_limited
unfolding track_session
track_session-not_limited evt q now e h = ground arith

contribute-not_limited :
    (evt : SearchEvent) (q : Str) (now : Time) (e : Evaluator)
    → (contribute evt q now e).0 ≢ rate_limited
unfolding contribute
contribute-not_limited evt q now e h =
    ground (arith, track_session-not_limited evt q now (mark_contributions evt q now e))

limit_rate-limited :
    (evt : SearchEvent) (q : Str) (now : Time) (e : Evaluator)
    → (limit_rate evt q now e).0 ≡ rate_limited
    → IpBlocked evt.ip_hash (add_duration now e.cfg.ip_block_duration) (limit_rate evt q now e).1
unfolding limit_rate
limit_rate-limited evt q now e h = ground (
  arith,
  contribute-not_limited evt q now (count_request evt.ip_hash (roll_minute now e)),
  lookup-insert evt.ip_hash evt.ip_hash (add_duration now e.cfg.ip_block_duration)
      e.ip_blocked_until,
)

blocked-not_limited :
    (evt : SearchEvent) (now : Time) (e : Evaluator) → blocked evt now e ≢ rate_limited
unfolding blocked
blocked-not_limited evt now e h = ground arith

evaluate-limited :
    (c : Call) (e : Evaluator)
    → (apply_call c e).0 ≡ rate_limited
    → IpBlocked c.event.ip_hash
        (add_duration (time_of c) e.cfg.ip_block_duration)
        (apply_call c e).1
unfolding evaluate evaluate_at
evaluate-limited c e h = ground (
  arith,
  cleanup-cfg (time_of c) e,
  blocked-not_limited c.event (time_of c) (cleanup (time_of c) e),
  limit_rate-limited c.event c.query (time_of c) (cleanup (time_of c) e),
)

-- The call has what the evaluator asks for: both identifiers, a query, and a valid configuration.
abbrev pub IsComplete : Call → Config → Type 0
IsComplete c cfg =
    (is_empty c.event.ip_hash ≡ false)
    × (is_empty c.event.session_id_hash ≡ false)
    × (is_empty c.query ≡ false)
    × (validate_config cfg ≡ none)

evaluate-blocked :
    (until : Time) (c : Call) (e : Evaluator)
    → IsComplete c e.cfg
    → time_of c < until
    → IpBlocked c.event.ip_hash until e
    → (apply_call c e).0
      ≡ reject_with RejectReason.anti_fraud_ip_blocked (Cause.ip_blocked_until until)
unfolding evaluate evaluate_at
evaluate-blocked until c e complete lt h = ground (
  arith,
  blocked_self c.event.ip_hash until c.event (time_of c) (cleanup (time_of c) e) lt refl
      (cleanup-IpBlocked c.event.ip_hash until (time_of c) e lt h),
)

-- After a rejection for the rate limit at time `t`, every complete call with the same ip at a time
-- before `t + IPBlockDuration` is rejected as blocked, until that very time, whatever calls come
-- between at times before then.
pub rate_limit_blocks_ip :
    (first later : Call) (calls : List Call) (e : Evaluator)
    → (apply_call first e).0 ≡ rate_limited
    → later.event.ip_hash ≡ first.event.ip_hash
    → IsComplete later e.cfg
    → All (λ c. time_of c < add_duration (time_of first) e.cfg.ip_block_duration) calls
    → time_of later < add_duration (time_of first) e.cfg.ip_block_duration
    → (apply_call later (run_calls calls (apply_call first e).1)).0
      ≡ reject_with RejectReason.anti_fraud_ip_blocked
          (Cause.ip_blocked_until (add_duration (time_of first) e.cfg.ip_block_duration))
rate_limit_blocks_ip first later calls e limited same complete before lt =
    let e' = run_calls calls (apply_call first e).1 in
    evaluate-blocked (add_duration (time_of first) e.cfg.ip_block_duration) later e'
      (
        complete.0,
        complete.1,
        complete.2,
        rw (run_calls-cfg calls (apply_call first e).1, evaluate-cfg first e) complete.3,
      )
      lt
      (rw same (
        run_calls-IpBlocked first.event.ip_hash
          (add_duration (time_of first) e.cfg.ip_block_duration) calls (apply_call first e).1 before
          (evaluate-limited first e limited)))
