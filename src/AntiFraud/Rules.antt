-- ===== src/AntiFraud/Rules.antt =====
-- `Evaluate`, in the stages of its body; each stage is the rest of the method from there on.
use mathlib.Core.Option
use wb_trial_task.Common.{
  ℕ, ◌+◌, ◌/◌, Bool, false, ◌||◌, Option, none, some, List, [], ◌∷◌, ◌++◌, ltb, ◌==◌, if◌then◌else◌,
  Str, is_empty, pos, ltb_ℤ, length,
}
use wb_trial_task.Common.Dict.{Dict, get, lookup, insert, erase}
use wb_trial_task.Clock.{Time, Duration, add_duration, sub_duration, unix}
use wb_trial_task.Domain.{SearchEvent, RejectError, RejectReason, Cause}
use wb_trial_task.AntiFraud.State.{
  Evaluator, SessionEntropyState, validate_config, prune_session_state, cleanup, identity_keys,
  contribution_key,
}

abbrev pub reject_with : RejectReason → Cause → Option RejectError
reject_with reason cause = some (record { reason = reason; err = some cause })

abbrev pub empty_session : SessionEntropyState
empty_session = record { events = []; counts = []; last_seen = none }

-- the session's state once the event is in it
unfoldable pub observe : Time → Str → Duration → SessionEntropyState → SessionEntropyState
observe now query window s =
    let s' = prune_session_state (sub_duration now window) (record s { last_seen = some now }) in
    record s' {
      events = s'.events ++ record { at = now; query = query } ∷ [];
      counts = insert query (get query s'.counts + 1) s'.counts;
    }

abbrev pub session_or_new : Option SessionEntropyState → SessionEntropyState
session_or_new none = empty_session
session_or_new (some s) = s

-- from `state := e.sessionEntropy[evt.SessionIDHash]` on
unfoldable pub track_session : SearchEvent → Str → Time → Evaluator → Option RejectError × Evaluator
track_session evt query now e =
    let s =
      observe now query e.cfg.session_entropy_window
        (session_or_new (lookup evt.session_id_hash e.session_entropy)) in
    if ltb_ℤ e.cfg.max_unique_queries_per_session (pos (length s.counts))
    then (
      reject_with RejectReason.anti_fraud_session_entropy Cause.session_entropy_exceeded,
      record e {
        session_blocked_until =
            insert evt.session_id_hash (add_duration now e.cfg.session_block_duration)
              e.session_blocked_until;
        session_entropy = erase evt.session_id_hash e.session_entropy;
      },
    )
    else (none, record e { session_entropy = insert evt.session_id_hash s e.session_entropy })

abbrev pub still_after : Time → Option Time → Bool
still_after now none = false
still_after now (some t) = ltb now t

-- The first loop over the keys: the first key whose contribution is capped.
unfoldable pub capped_key : Time → Str → List Str → Dict Time → Option Str
capped_key now query [] seen = none
capped_key now query (key ∷ keys) seen =
    if still_after now (lookup (contribution_key key query) seen)
    then some key
    else capped_key now query keys seen

-- The second loop over the keys.
unfoldable pub mark_keys : Time → Str → List Str → Dict Time → Dict Time
mark_keys exp query [] seen = seen
mark_keys exp query (key ∷ keys) seen =
    mark_keys exp query keys (insert (contribution_key key query) exp seen)

-- the state after the second loop
unfoldable pub mark_contributions : SearchEvent → Str → Time → Evaluator → Evaluator
mark_contributions evt query now e = record e {
  contribution_seen =
      mark_keys (add_duration now e.cfg.contribution_window) query (identity_keys evt)
        e.contribution_seen;
}

-- from `keys := identityKeys(evt)` on
unfoldable pub contribute : SearchEvent → Str → Time → Evaluator → Option RejectError × Evaluator
contribute evt query now e = elim (capped_key now query (identity_keys evt) e.contribution_seen) [
  | some key ↦ (
    reject_with RejectReason.anti_fraud_contribution_cap (Cause.contribution_cap_exceeded_for key),
    e,
  )
  | none ↦ track_session evt query now (mark_contributions evt query now e)
]

-- `nowMin := now.Unix() / 60`, and new counters for a new minute
abbrev pub minute_of : Time → ℕ
minute_of now = unix now / 60

unfoldable pub roll_minute : Time → Evaluator → Evaluator
roll_minute now e =
    if e.bucket_min == minute_of now
    then e
    else record e { bucket_min = minute_of now; counters = [] }

-- `e.counters[evt.IPHash]++`
unfoldable pub count_request : Str → Evaluator → Evaluator
count_request ip e = record e { counters = insert ip (get ip e.counters + 1) e.counters }

-- from the counter of the minute on
unfoldable pub limit_rate : SearchEvent → Str → Time → Evaluator → Option RejectError × Evaluator
unfolding roll_minute count_request
limit_rate evt query now e =
    let e' = count_request evt.ip_hash (roll_minute now e) in
    if ltb_ℤ e'.cfg.max_requests_per_minute_per_ip (pos (get evt.ip_hash e'.counters))
    then (
      reject_with RejectReason.anti_fraud_ip_rate_limit Cause.ip_rate_limit_exceeded,
      record e' {
        ip_blocked_until =
            insert evt.ip_hash (add_duration now e'.cfg.ip_block_duration) e'.ip_blocked_until;
      },
    )
    else contribute evt query now e'

-- the check of `sessionBlockedUntil`
unfoldable pub session_blocked : SearchEvent → Time → Evaluator → Option RejectError
session_blocked evt now e = elim (lookup evt.session_id_hash e.session_blocked_until) [
  | some until ↦
      if ltb now until
      then reject_with RejectReason.anti_fraud_session_entropy (Cause.session_blocked_until until)
      else none
  | none ↦ none
]

-- the two checks of the block lists
unfoldable pub blocked : SearchEvent → Time → Evaluator → Option RejectError
unfolding session_blocked
blocked evt now e = elim (lookup evt.ip_hash e.ip_blocked_until) [
  | some until ↦
      if ltb now until
      then reject_with RejectReason.anti_fraud_ip_blocked (Cause.ip_blocked_until until)
      else session_blocked evt now e
  | none ↦ session_blocked evt now e
]

-- from `e.cleanupLocked(now)` on
unfoldable pub evaluate_at : SearchEvent → Str → Time → Evaluator → Option RejectError × Evaluator
evaluate_at evt query now e =
    let e' = cleanup now e in
    elim (blocked evt now e') [ some r ↦ (some r, e') | none ↦ limit_rate evt query now e' ]

-- `Evaluate` of an evaluator that is not nil. `none` for the time is Go's zero time, in whose
-- place the clock's reading `clock` is taken.
unfoldable pub evaluate :
    SearchEvent → Str → Option Time → Time → Evaluator → Option RejectError × Evaluator
evaluate evt query now clock e =
    if is_empty evt.ip_hash || is_empty evt.session_id_hash
    then (reject_with RejectReason.anti_fraud_missing_identifiers Cause.missing_identifiers, e)
    else if is_empty query
    then (reject_with RejectReason.anti_fraud_degraded Cause.normalized_query_is_empty, e)
    else elim (validate_config e.cfg) [
      | some field ↦ (reject_with RejectReason.anti_fraud_degraded (Cause.invalid_config field), e)
      | none ↦ evaluate_at evt query (Option.get_or now clock) e
    ]

-- `Evaluate` with its receiver, a pointer that may be nil.
unfoldable pub evaluate_pointer :
    SearchEvent
    → Str
    → Option Time
    → Time
    → Option Evaluator
    → Option RejectError × Option Evaluator
evaluate_pointer evt query now clock none =
    (reject_with RejectReason.anti_fraud_degraded Cause.evaluator_is_nil, none)
evaluate_pointer evt query now clock (some e) =
    let (r, e') = evaluate evt query now clock e in (r, some e')
