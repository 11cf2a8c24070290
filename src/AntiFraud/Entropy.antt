-- ===== src/AntiFraud/Entropy.antt =====
-- The entropy limit over calls: no stored session holds more different queries than allowed.
use mathlib.Core.Path.{subst, sym}
use wb_trial_task.Common.{
  ℕ, ◌≤◌, ◌≡◌, refl, ◌&&◌, List, [], ◌∷◌, arith, ltb, if◌then◌else◌, Str, All, inl, inr,
  Option-cases, Bool-cases, is_empty, ltb_ℤ, pos, pos_part, length, ap,
}
use wb_trial_task.Common.Dict.{Dict, lookup}
use wb_trial_task.Common.Tally.{IsTally-nil}
use wb_trial_task.Clock.{Time, Duration, sub_duration}
use wb_trial_task.Domain.{SearchEvent}
use wb_trial_task.AntiFraud.State.{
  Config, Evaluator, SessionEvent, SessionEntropyState, uncount, prune_events, prune_session_state,
  idle_longer, clean_sessions, cleanup, new_fail_closed_evaluator, with_defaults,
}
use wb_trial_task.AntiFraud.Rules.{
  observe, session_or_new, track_session, mark_contributions, contribute, limit_rate, roll_minute,
  count_request, evaluate_at, evaluate,
}
use wb_trial_task.AntiFraud.Calls.{Call, time_of, apply_call, run_calls, run_calls-cfg}
use wb_trial_task.AntiFraud.Session.{
  IsConsistent, SessionOk, AllSessions, prune_session_state-SessionOk, observe-IsConsistent,
  AllSessions-lookup, AllSessions-insert, AllSessions-erase,
}

abbrev max_queries : Config → ℕ
max_queries cfg = pos_part cfg.max_unique_queries_per_session

clean_sessions-AllSessions :
    (max : ℕ) (now : Time) (window : Duration) (d : Dict SessionEntropyState)
    → AllSessions (SessionOk max) d
    → AllSessions (SessionOk max) (clean_sessions now window d)
unfolding clean_sessions
clean_sessions-AllSessions max now window [] a = tt
clean_sessions-AllSessions max now window ((k, s) ∷ d) a =
    let s' = prune_session_state (sub_duration now window) s in
    let p = prune_session_state-SessionOk max (sub_duration now window) s a.0 in
    let rest = clean_sessions-AllSessions max now window d a.1 in
    elim (Bool-cases (is_empty s'.counts && idle_longer now s'.last_seen window)) [
      | inl idle ↦ rw (idle, clean_sessions) rest
      | inr live ↦ rw (live, clean_sessions) (p, rest)
    ]

-- Every stored session is in order under the evaluator's own limit.
abbrev pub SessionsOk : Evaluator → Type 0
SessionsOk e = AllSessions (SessionOk (max_queries e.cfg)) e.session_entropy

cleanup-SessionsOk : (now : Time) (e : Evaluator) → SessionsOk e → SessionsOk (cleanup now e)
unfolding cleanup
cleanup-SessionsOk now e a = ground (
  arith,
  clean_sessions-AllSessions (max_queries e.cfg) now e.cfg.session_entropy_window e.session_entropy
      a,
)

session_or_new-IsConsistent :
    (max : ℕ) (k : Str) (d : Dict SessionEntropyState)
    → AllSessions (SessionOk max) d
    → let s = session_or_new (lookup k d) in IsConsistent s.events s.counts
session_or_new-IsConsistent max k d a = elim (Option-cases (lookup k d)) [
  | inl out ↦ rw out (record { tally = IsTally-nil; counted = λ q. unfold lookup in refl })
  | inr (s, found) ↦ rw found (AllSessions-lookup (SessionOk max) k s d a found).consistent
]

track_session-SessionsOk :
    (evt : SearchEvent) (q : Str) (now : Time) (e : Evaluator)
    → SessionsOk e
    → SessionsOk (track_session evt q now e).1
unfolding track_session
track_session-SessionsOk evt q now e a =
    let s₀ = session_or_new (lookup evt.session_id_hash e.session_entropy) in
    let s = observe now q e.cfg.session_entropy_window s₀ in
    let c =
      observe-IsConsistent now q e.cfg.session_entropy_window s₀
        (session_or_new-IsConsistent (max_queries e.cfg) evt.session_id_hash e.session_entropy a) in
    elim (Bool-cases (ltb_ℤ e.cfg.max_unique_queries_per_session (pos (length s.counts)))) [
      | inl many ↦
          rw (many, track_session)
            (AllSessions-erase (SessionOk (max_queries e.cfg)) evt.session_id_hash e.session_entropy
              a)
      | inr few ↦
          rw (few, track_session)
            (AllSessions-insert (SessionOk (max_queries e.cfg)) evt.session_id_hash s
              e.session_entropy (record { consistent = c; few = ground arith }) a)
    ]

contribute-SessionsOk :
    (evt : SearchEvent) (q : Str) (now : Time) (e : Evaluator)
    → SessionsOk e
    → SessionsOk (contribute evt q now e).1
unfolding contribute mark_contributions
contribute-SessionsOk evt q now e a =
    ground (arith, track_session-SessionsOk evt q now (mark_contributions evt q now e) a)

limit_rate-SessionsOk :
    (evt : SearchEvent) (q : Str) (now : Time) (e : Evaluator)
    → SessionsOk e
    → SessionsOk (limit_rate evt q now e).1
unfolding limit_rate
limit_rate-SessionsOk evt q now e a =
    ground (arith, contribute-SessionsOk evt q now (count_request evt.ip_hash (roll_minute now e)))

evaluate-SessionsOk : (c : Call) (e : Evaluator) → SessionsOk e → SessionsOk (apply_call c e).1
unfolding evaluate evaluate_at
evaluate-SessionsOk c e a = ground (
  arith,
  limit_rate-SessionsOk c.event c.query (time_of c) (cleanup (time_of c) e)
      (cleanup-SessionsOk (time_of c) e a),
  cleanup-SessionsOk (time_of c) e a,
)

run_calls-SessionsOk :
    (calls : List Call) (e : Evaluator) → SessionsOk e → SessionsOk (run_calls calls e)
unfolding run_calls
run_calls-SessionsOk [] e a = a
run_calls-SessionsOk (c ∷ calls) e a =
    run_calls-SessionsOk calls (apply_call c e).1 (evaluate-SessionsOk c e a)

-- After any calls on a new evaluator, every stored session's counts are those of its events, with
-- an entry for each query that occurs, and it holds at most the configured number of different
-- queries (100 where the configuration gives no positive number).
pub run_calls-sessions :
    (cfg : Config) (calls : List Call)
    → AllSessions
        (SessionOk (pos_part (with_defaults cfg).max_unique_queries_per_session))
        (run_calls calls (new_fail_closed_evaluator cfg)).session_entropy
unfolding new_fail_closed_evaluator
run_calls-sessions cfg calls =
    let e = new_fail_closed_evaluator cfg in
    subst (λ c. AllSessions (SessionOk (max_queries c)) (run_calls calls e).session_entropy)
      (run_calls-cfg calls e) (run_calls-SessionsOk calls e tt)

-- The events are in the order of their times.
abbrev pub IsChronological : List SessionEvent → Type 0
IsChronological [] = Unit
IsChronological (x ∷ events) = All (λ y. x.at ≤ y.at) events × IsChronological events

-- The events at or after the cutoff.
abbrev pub recent : Time → List SessionEvent → List SessionEvent
recent cutoff [] = []
recent cutoff (x ∷ events) =
    if ltb x.at cutoff then recent cutoff events else x ∷ recent cutoff events

recent-All :
    (cutoff : Time) (events : List SessionEvent)
    → All (λ y. cutoff ≤ y.at) events
    → recent cutoff events ≡ events
recent-All cutoff [] a = refl
recent-All cutoff (x ∷ events) a = ground (arith, recent-All cutoff events a.1)

All-after :
    (cutoff t : Time) (events : List SessionEvent)
    → cutoff ≤ t
    → All (λ y. t ≤ y.at) events
    → All (λ (y : SessionEvent). cutoff ≤ y.at) events
All-after cutoff t [] le a = tt
All-after cutoff t (x ∷ events) le a = (omega arith, All-after cutoff t events le a.1)

-- On events in the order of their times, pruning keeps exactly those at or after the cutoff.
pub prune_events-recent :
    (cutoff : Time) (events : List SessionEvent) (counts : Dict ℕ)
    → IsChronological events
    → (prune_events cutoff events counts).0 ≡ recent cutoff events
unfolding prune_events
prune_events-recent cutoff [] counts h = refl
prune_events-recent cutoff (x ∷ events) counts h = elim (Bool-cases (ltb x.at cutoff)) [
  | inl old ↦
      rw (old, prune_events) (prune_events-recent cutoff events (uncount x.query counts) h.1)
  | inr new ↦
      rw (new, prune_events)
        (sym
          (ap (◌∷◌ x) (recent-All cutoff events (All-after cutoff x.at events (ground arith) h.0))))
]
