-- ===== src/AntiFraud/RateLimit.antt =====
-- The limit on the requests of one ip in one minute.
use mathlib.Core.Path.{subst}
use wb_trial_task.Common.{
  ℕ, ◌+◌, ◌-◌, ◌≤◌, ◌≡◌, refl, none, some, List, [], ◌∷◌, arith, ◌==◌, if◌then◌else◌, Str,
  Str-discrete, All, inl, inr, Option-cases, Bool-cases, ite, pos_part, ltb_ℤ, pos,
}
use wb_trial_task.Common.Dict.{get, lookup, lookup-insert}
use wb_trial_task.Clock.{Time}
use wb_trial_task.Domain.{SearchEvent}
use wb_trial_task.AntiFraud.State.{Evaluator, cleanup}
use wb_trial_task.AntiFraud.Rules.{
  track_session, mark_contributions, contribute, limit_rate, roll_minute, count_request, minute_of,
  evaluate_at, evaluate,
}
use wb_trial_task.AntiFraud.Calls.{Call, time_of, apply_call, cleanup-cfg, evaluate-cfg}

-- The requests that the evaluator has counted for an ip in a minute.
abbrev pub level : ℕ → Str → Evaluator → ℕ
level m ip e = if e.bucket_min == m then get ip e.counters else 0

abbrev limit : Evaluator → ℕ
limit e = pos_part e.cfg.max_requests_per_minute_per_ip

cleanup-level :
    (m : ℕ) (ip : Str) (now : Time) (e : Evaluator) → level m ip (cleanup now e) ≡ level m ip e
unfolding cleanup
cleanup-level m ip now e = ground arith

contribute-level :
    (m : ℕ) (ip : Str) (evt : SearchEvent) (q : Str) (now : Time) (e : Evaluator)
    → level m ip (contribute evt q now e).1 ≡ level m ip e
unfolding contribute mark_contributions track_session
contribute-level m ip evt q now e = ground arith

-- Counting a request in minute `m` adds one for its ip, and leaves the other ips.
counted-level :
    (ip : Str) (k : Str) (now : Time) (e : Evaluator)
    → level (minute_of now) ip (count_request k (roll_minute now e))
      ≡ ite (Str-discrete k ip) (level (minute_of now) ip e + 1) (level (minute_of now) ip e)
unfolding count_request roll_minute lookup
counted-level ip k now e = ground (
  arith,
  lookup-insert k ip (get k e.counters + 1) e.counters,
  lookup-insert k ip (get k [] + 1) [],
)

limit_rate-level :
    (ip : Str) (evt : SearchEvent) (q : Str) (now : Time) (e : Evaluator)
    → level (minute_of now) ip (limit_rate evt q now e).1
      ≡ level (minute_of now) ip (count_request evt.ip_hash (roll_minute now e))
unfolding limit_rate
limit_rate-level ip evt q now e = ground (
  arith,
  contribute-level (minute_of now) ip evt q now (count_request evt.ip_hash (roll_minute now e)),
)

minute-counted :
    (k : Str) (now : Time) (e : Evaluator)
    → (count_request k (roll_minute now e)).bucket_min ≡ minute_of now
unfolding count_request roll_minute
minute-counted k now e = ground arith

-- An event that passes was within the limit.
limit_rate-accepted :
    (evt : SearchEvent) (q : Str) (now : Time) (e : Evaluator)
    → (limit_rate evt q now e).0 ≡ none
    → level (minute_of now) evt.ip_hash (count_request evt.ip_hash (roll_minute now e)) ≤ limit e
unfolding limit_rate
limit_rate-accepted evt q now e ok =
    elim (Bool-cases (
      ltb_ℤ e.cfg.max_requests_per_minute_per_ip
        (pos (get evt.ip_hash (count_request evt.ip_hash (roll_minute now e)).counters)))) [
          | inl over ↦ absurd (unfold roll_minute count_request in ground arith)
          | inr within ↦ ground (arith, minute-counted evt.ip_hash now e)
        ]

-- The level of any ip never falls within a minute; for the ip of an accepted event it rises by
-- one, and is then within the limit.
evaluate-level :
    (ip : Str) (c : Call) (e : Evaluator)
    → level (minute_of (time_of c)) ip e ≤ level (minute_of (time_of c)) ip (apply_call c e).1
unfolding evaluate evaluate_at
evaluate-level ip c e = ground (
  arith,
  cleanup-level (minute_of (time_of c)) ip (time_of c) e,
  limit_rate-level ip c.event c.query (time_of c) (cleanup (time_of c) e),
  counted-level ip c.event.ip_hash (time_of c) (cleanup (time_of c) e),
)

evaluate-level_accepted :
    (c : Call) (e : Evaluator)
    → (apply_call c e).0 ≡ none
    → (level (minute_of (time_of c)) c.event.ip_hash (apply_call c e).1
        ≡ level (minute_of (time_of c)) c.event.ip_hash e + 1)
      × (level (minute_of (time_of c)) c.event.ip_hash (apply_call c e).1 ≤ limit e)
unfolding evaluate evaluate_at
evaluate-level_accepted c e ok = ground (
  arith,
  cleanup-cfg (time_of c) e,
  cleanup-level (minute_of (time_of c)) c.event.ip_hash (time_of c) e,
  limit_rate-level c.event.ip_hash c.event c.query (time_of c) (cleanup (time_of c) e),
  counted-level c.event.ip_hash c.event.ip_hash (time_of c) (cleanup (time_of c) e),
  limit_rate-accepted c.event c.query (time_of c) (cleanup (time_of c) e),
)

-- A count for the ip of the minute rises by one, within the limit.
abbrev RisesWithin : ℕ → Str → Evaluator → Evaluator → Type 0
RisesWithin m ip e e' = (level m ip e' ≡ level m ip e + 1) × (level m ip e' ≤ limit e)

accepted-RisesWithin :
    (m : ℕ) (ip : Str) (c : Call) (e : Evaluator)
    → minute_of (time_of c) ≡ m
    → c.event.ip_hash ≡ ip
    → (apply_call c e).0 ≡ none
    → RisesWithin m ip e (apply_call c e).1
accepted-RisesWithin m ip c e at same ok =
    subst (λ k. RisesWithin m k e (apply_call c e).1) same
      (subst (λ n. RisesWithin n c.event.ip_hash e (apply_call c e).1) at
        (evaluate-level_accepted c e ok))

-- How many events of an ip a run accepts.
unfoldable pub accepted_of : Str → List Call → Evaluator → ℕ
accepted_of ip [] e = 0
accepted_of ip (c ∷ calls) e =
    let (r, e') = apply_call c e in
    (elim r [ none ↦ ite (Str-discrete c.event.ip_hash ip) 1 0 | some _ ↦ 0 ])
    + accepted_of ip calls e'

accepted_of-level :
    (m : ℕ) (ip : Str) (calls : List Call) (e : Evaluator)
    → All (λ c. minute_of (time_of c) ≡ m) calls
    → accepted_of ip calls e ≤ limit e - level m ip e
unfolding accepted_of
accepted_of-level m ip [] e a = omega arith
accepted_of-level m ip (c ∷ calls) e a =
    let rest : accepted_of ip calls (apply_call c e).1
        ≤ limit (apply_call c e).1 - level m ip (apply_call c e).1 =
      accepted_of-level m ip calls (apply_call c e).1 a.1 in
    let cfg = evaluate-cfg c e in
    let same_limit : limit (apply_call c e).1 ≡ limit e = rw cfg refl in
    let up : level m ip e ≤ level m ip (apply_call c e).1 = rw a.0 at (evaluate-level ip c e) in
    elim (Option-cases (apply_call c e).0) [
      | inl ok ↦ elim (Str-discrete c.event.ip_hash ip) [
        | yes same ↦ let (rise, within) = accepted-RisesWithin m ip c e a.0 same ok in ground arith
        | no other ↦ ground arith
      ]
      | inr (r, rejected) ↦ ground arith
    ]

-- However many calls are made in one minute, whatever the state before, at most
-- `MaxRequestsPerMinutePerIP` events of one ip are accepted in it.
pub accepted_of-le-limit :
    (m : ℕ) (ip : Str) (calls : List Call) (e : Evaluator)
    → All (λ c. minute_of (time_of c) ≡ m) calls
    → accepted_of ip calls e ≤ pos_part e.cfg.max_requests_per_minute_per_ip
accepted_of-le-limit m ip calls e a = omega (arith, accepted_of-level m ip calls e a)
