-- ===== src/AntiFraud/Caps.antt =====
-- The contribution cap: a source counts for a query once in a contribution window.
use wb_trial_task.Common.{
  ◌<◌, ◌≡◌, refl, ◌≢◌, ◌∙◌, false, none, some, List, [], ◌∷◌, arith, ltb, Str, All, inl, inr, ◌⊎◌,
  Bool-cases,
}
use wb_trial_task.Common.Dict.{Dict, lookup, insert, lookup-insert, lookup-retain-some}
use wb_trial_task.Clock.{Time, add_duration}
use wb_trial_task.Domain.{SearchEvent}
use wb_trial_task.AntiFraud.State.{Evaluator, cleanup, identity_keys, contribution_key}
use wb_trial_task.AntiFraud.Rules.{
  still_after, capped_key, mark_keys, track_session, mark_contributions, contribute, limit_rate,
  roll_minute, count_request, evaluate_at, evaluate,
}
use wb_trial_task.AntiFraud.Calls.{Call, time_of, apply_call, run_calls, cleanup-cfg}

-- The key is one of the list.
abbrev pub HasKey : Str → List Str → Type 0
HasKey key [] = ⊥
HasKey key (k ∷ keys) = (k ≡ key) ⊎ HasKey key keys

-- The contribution with this key is capped until `exp`.
abbrev pub Capped : Str → Time → Evaluator → Type 0
Capped key exp e = lookup key e.contribution_seen ≡ some exp

-- A key that is capped is not one of those that the loop lets through.
capped_key-none :
    (now exp : Time) (q j : Str) (keys : List Str) (seen : Dict Time)
    → now < exp
    → lookup j seen ≡ some exp
    → capped_key now q keys seen ≡ none
    → All (λ k. contribution_key k q ≢ j) keys
unfolding capped_key
capped_key-none now exp q j [] seen lt h n = tt
capped_key-none now exp q j (k ∷ keys) seen lt h n =
    elim (Bool-cases (still_after now (lookup (contribution_key k q) seen))) [
      | inl still ↦ absurd (ground arith)
      | inr over ↦ (differs k over, capped_key-none now exp q j keys seen lt h (ground arith))
    ]
  where
    differs :
        (k : Str)
        → still_after now (lookup (contribution_key k q) seen) ≡ false
        → contribution_key k q ≢ j
    differs k over e = ground (arith, rw e at over)

lookup-mark_keys_other :
    (exp : Time) (q j : Str) (keys : List Str) (seen : Dict Time)
    → All (λ k. contribution_key k q ≢ j) keys
    → lookup j (mark_keys exp q keys seen) ≡ lookup j seen
unfolding mark_keys
lookup-mark_keys_other exp q j [] seen a = refl
lookup-mark_keys_other exp q j (k ∷ keys) seen a =
    lookup-mark_keys_other exp q j keys (insert (contribution_key k q) exp seen) a.1
    ∙ ground (arith, lookup-insert (contribution_key k q) j exp seen)

lookup-mark_keys_same :
    (exp : Time) (q j : Str) (keys : List Str) (seen : Dict Time)
    → lookup j seen ≡ some exp
    → lookup j (mark_keys exp q keys seen) ≡ some exp
unfolding mark_keys
lookup-mark_keys_same exp q j [] seen h = h
lookup-mark_keys_same exp q j (k ∷ keys) seen h =
    lookup-mark_keys_same exp q j keys (insert (contribution_key k q) exp seen)
      (ground (arith, lookup-insert (contribution_key k q) j exp seen))

lookup-mark_keys :
    (exp : Time) (q key : Str) (keys : List Str) (seen : Dict Time)
    → HasKey key keys
    → lookup (contribution_key key q) (mark_keys exp q keys seen) ≡ some exp
unfolding mark_keys
lookup-mark_keys exp q key [] seen h = absurd h
lookup-mark_keys exp q key (k ∷ keys) seen (inl here) =
    lookup-mark_keys_same exp q (contribution_key key q) keys
      (insert (contribution_key k q) exp seen)
      (rw here
        (ground (arith, lookup-insert (contribution_key key q) (contribution_key key q) exp seen)))
lookup-mark_keys exp q key (k ∷ keys) seen (inr later) =
    lookup-mark_keys exp q key keys (insert (contribution_key k q) exp seen) later

track_session-contributions :
    (evt : SearchEvent) (q : Str) (now : Time) (e : Evaluator)
    → (track_session evt q now e).1.contribution_seen ≡ e.contribution_seen
unfolding track_session
track_session-contributions evt q now e = ground arith

pub cleanup-Capped :
    (key : Str) (exp now : Time) (e : Evaluator)
    → now < exp
    → Capped key exp e
    → Capped key exp (cleanup now e)
unfolding cleanup
cleanup-Capped key exp now e lt h =
    ground (arith, lookup-retain-some (λ t. ltb now t) key exp e.contribution_seen h (ground arith))

mark_contributions-Capped :
    (key : Str) (exp : Time) (evt : SearchEvent) (q : Str) (now : Time) (e : Evaluator)
    → now < exp
    → Capped key exp e
    → capped_key now q (identity_keys evt) e.contribution_seen ≡ none
    → Capped key exp (mark_contributions evt q now e)
unfolding mark_contributions
mark_contributions-Capped key exp evt q now e lt h free =
    lookup-mark_keys_other (add_duration now e.cfg.contribution_window) q key (identity_keys evt)
      e.contribution_seen
      (capped_key-none now exp q key (identity_keys evt) e.contribution_seen lt h free)
    ∙ h

contribute-Capped :
    (key : Str) (exp : Time) (evt : SearchEvent) (q : Str) (now : Time) (e : Evaluator)
    → now < exp
    → Capped key exp e
    → Capped key exp (contribute evt q now e).1
unfolding contribute
contribute-Capped key exp evt q now e lt h = ground (
  arith,
  track_session-contributions evt q now (mark_contributions evt q now e),
  mark_contributions-Capped key exp evt q now e lt h,
)

-- A call before the expiry keeps the cap.
evaluate-Capped :
    (key : Str) (exp : Time) (c : Call) (e : Evaluator)
    → time_of c < exp
    → Capped key exp e
    → Capped key exp (apply_call c e).1
unfolding evaluate evaluate_at limit_rate
evaluate-Capped key exp c e lt h = ground (
  arith,
  cleanup-Capped key exp (time_of c) e lt h,
  contribute-Capped key exp c.event c.query (time_of c)
      (count_request c.event.ip_hash (roll_minute (time_of c) (cleanup (time_of c) e))) lt,
)

run_calls-Capped :
    (key : Str) (exp : Time) (calls : List Call) (e : Evaluator)
    → All (λ c. time_of c < exp) calls
    → Capped key exp e
    → Capped key exp (run_calls calls e)
unfolding run_calls
run_calls-Capped key exp [] e a h = h
run_calls-Capped key exp (c ∷ calls) e a h =
    run_calls-Capped key exp calls (apply_call c e).1 a.1 (evaluate-Capped key exp c e a.0 h)

-- An accepted event caps each of its keys.
contribute-accepted :
    (key : Str) (evt : SearchEvent) (q : Str) (now : Time) (e : Evaluator)
    → HasKey key (identity_keys evt)
    → (contribute evt q now e).0 ≡ none
    → Capped
        (contribution_key key q)
        (add_duration now e.cfg.contribution_window)
        (contribute evt q now e).1
unfolding contribute mark_contributions
contribute-accepted key evt q now e m ok = ground (
  arith,
  track_session-contributions evt q now (mark_contributions evt q now e),
  lookup-mark_keys (add_duration now e.cfg.contribution_window) q key (identity_keys evt)
      e.contribution_seen m,
)

pub evaluate-accepted :
    (key : Str) (c : Call) (e : Evaluator)
    → HasKey key (identity_keys c.event)
    → (apply_call c e).0 ≡ none
    → Capped
        (contribution_key key c.query)
        (add_duration (time_of c) e.cfg.contribution_window)
        (apply_call c e).1
unfolding evaluate evaluate_at limit_rate roll_minute count_request
evaluate-accepted key c e m ok = ground (
  arith,
  cleanup-cfg (time_of c) e,
  contribute-accepted key c.event c.query (time_of c)
      (count_request c.event.ip_hash (roll_minute (time_of c) (cleanup (time_of c) e))) m,
)

-- A key of the list whose cap is not over stops the loop.
capped_key-some :
    (now exp : Time) (q key : Str) (keys : List Str) (seen : Dict Time)
    → now < exp
    → HasKey key keys
    → lookup (contribution_key key q) seen ≡ some exp
    → capped_key now q keys seen ≢ none
unfolding capped_key
capped_key-some now exp q key [] seen lt m h n = absurd m
capped_key-some now exp q key (k ∷ keys) seen lt (inl here) h n =
    let found : lookup (contribution_key k q) seen ≡ some exp = rw here h in ground arith
capped_key-some now exp q key (k ∷ keys) seen lt (inr later) h n =
    ground (arith, capped_key-some now exp q key keys seen lt later h)

contribute-rejected :
    (key : Str) (exp : Time) (evt : SearchEvent) (q : Str) (now : Time) (e : Evaluator)
    → now < exp
    → HasKey key (identity_keys evt)
    → Capped (contribution_key key q) exp e
    → (contribute evt q now e).0 ≢ none
unfolding contribute
contribute-rejected key exp evt q now e lt m h n =
    ground (arith, capped_key-some now exp q key (identity_keys evt) e.contribution_seen lt m h)

evaluate-rejected :
    (key : Str) (exp : Time) (c : Call) (e : Evaluator)
    → time_of c < exp
    → HasKey key (identity_keys c.event)
    → Capped (contribution_key key c.query) exp e
    → (apply_call c e).0 ≢ none
unfolding evaluate evaluate_at limit_rate roll_minute count_request
evaluate-rejected key exp c e lt m h n = ground (
  arith,
  cleanup-Capped (contribution_key key c.query) exp (time_of c) e lt h,
  contribute-rejected key exp c.event c.query (time_of c)
      (count_request c.event.ip_hash (roll_minute (time_of c) (cleanup (time_of c) e))) lt m,
)

-- Once an event is accepted at time `t`, no event with the same normalized query that shares an
-- identity key with it (ip, session or user) is accepted at a time before `t + window`, whatever
-- calls come between at times before then.
pub contribution_counts_once :
    (first later : Call) (calls : List Call) (key : Str) (e : Evaluator)
    → (apply_call first e).0 ≡ none
    → HasKey key (identity_keys first.event)
    → HasKey key (identity_keys later.event)
    → later.query ≡ first.query
    → All (λ c. time_of c < add_duration (time_of first) e.cfg.contribution_window) calls
    → time_of later < add_duration (time_of first) e.cfg.contribution_window
    → (apply_call later (run_calls calls (apply_call first e).1)).0 ≢ none
contribution_counts_once first later calls key e ok m m' same before lt =
    evaluate-rejected key (add_duration (time_of first) e.cfg.contribution_window) later
      (run_calls calls (apply_call first e).1) lt m'
      (rw same (
        run_calls-Capped (contribution_key key first.query)
          (add_duration (time_of first) e.cfg.contribution_window) calls (apply_call first e).1
          before (evaluate-accepted key first e m ok)))
