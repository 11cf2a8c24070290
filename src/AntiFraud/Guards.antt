-- ===== src/AntiFraud/Guards.antt =====
-- What an accepted event has passed, and the reasons of a rejection.
use mathlib.Core.Option
use mathlib.Core.Path.{subst}
use wb_trial_task.Common.{
  ◌≡◌, ◌≢◌, false, Option, none, some, List, [], ◌∷◌, arith, Str, is_empty, All, Option-cases, inl,
  inr, ◌<◌, refl, Bool-cases, ltb,
}
use wb_trial_task.Common.Dict.{Dict, lookup, lookup-retain-some}
use wb_trial_task.Clock.{Time, add_duration}
use wb_trial_task.Domain.{SearchEvent, RejectError, RejectReason}
use wb_trial_task.AntiFraud.State.{
  Evaluator, validate_config, cleanup, identity_keys, contribution_key,
}
use wb_trial_task.AntiFraud.Rules.{
  evaluate, evaluate_at, blocked, session_blocked, limit_rate, roll_minute, count_request,
  contribute, capped_key, mark_contributions, track_session, still_after,
}
use wb_trial_task.AntiFraud.Calls.{Call, time_of, apply_call}
use wb_trial_task.AntiFraud.Caps.{HasKey, Capped, cleanup-Capped, evaluate-accepted}
use wb_trial_task.AntiFraud.Blocks.{cleanup-IpBlocked}

-- No contribution of the keys to the query is still capped.
abbrev pub IsFree : Time → Str → List Str → Dict Time → Type 0
IsFree now q keys seen =
    All (λ key. still_after now (lookup (contribution_key key q) seen) ≡ false) keys

capped_key-none :
    (now : Time) (q : Str) (keys : List Str) (seen : Dict Time)
    → capped_key now q keys seen ≡ none
    → IsFree now q keys seen
unfolding capped_key
capped_key-none now q [] seen h = tt
capped_key-none now q (key ∷ keys) seen h = ground (arith, capped_key-none now q keys seen)

contribute-IsFree :
    (evt : SearchEvent) (q : Str) (now : Time) (e : Evaluator)
    → (contribute evt q now e).0 ≡ none
    → IsFree now q (identity_keys evt) e.contribution_seen
unfolding contribute
contribute-IsFree evt q now e h =
    elim (Option-cases (capped_key now q (identity_keys evt) e.contribution_seen)) [
      | inl free ↦ capped_key-none now q (identity_keys evt) e.contribution_seen free
      | inr (key, capped) ↦ absurd (ground arith)
    ]

limit_rate-IsFree :
    (evt : SearchEvent) (q : Str) (now : Time) (e : Evaluator)
    → (limit_rate evt q now e).0 ≡ none
    → IsFree now q (identity_keys evt) e.contribution_seen
unfolding limit_rate
limit_rate-IsFree evt q now e h =
    let e' = count_request evt.ip_hash (roll_minute now e) in
    let same : e'.contribution_seen ≡ e.contribution_seen =
      unfold count_request roll_minute in ground arith in
    subst (IsFree now q (identity_keys evt)) same (contribute-IsFree evt q now e' (ground arith))

blocked-none :
    (evt : SearchEvent) (now : Time) (e : Evaluator)
    → blocked evt now e ≡ none
    → (still_after now (lookup evt.ip_hash e.ip_blocked_until) ≡ false)
      × (still_after now (lookup evt.session_id_hash e.session_blocked_until) ≡ false)
unfolding blocked session_blocked
blocked-none evt now e h = ground arith

evaluate_at-cases :
    (evt : SearchEvent) (q : Str) (now : Time) (e : Evaluator)
    → (evaluate_at evt q now e).0 ≡ none
    → (blocked evt now (cleanup now e) ≡ none) × ((limit_rate evt q now (cleanup now e)).0 ≡ none)
unfolding evaluate_at
evaluate_at-cases evt q now e h = ground arith

-- What has a time that is not over now still has it after a clean-up, so what has none by then had
-- none before.
not_after-earlier :
    (now : Time) (before after : Option Time)
    → ((t : Time) → now < t → before ≡ some t → after ≡ some t)
    → still_after now after ≡ false
    → still_after now before ≡ false
not_after-earlier now none after kept h = refl
not_after-earlier now (some t) after kept h = elim (Bool-cases (ltb now t)) [
  | inl live ↦ let found : after ≡ some t = kept t (ground arith) refl in absurd (ground arith)
  | inr over ↦ ground arith
]

cleanup-session_blocked :
    (session : Str) (until now : Time) (e : Evaluator)
    → now < until
    → lookup session e.session_blocked_until ≡ some until
    → lookup session (cleanup now e).session_blocked_until ≡ some until
unfolding cleanup
cleanup-session_blocked session until now e lt h = ground (
  arith,
  lookup-retain-some (λ t. ltb now t) session until e.session_blocked_until h (ground arith),
)

IsFree-before_cleanup :
    (now : Time) (q : Str) (keys : List Str) (e : Evaluator)
    → IsFree now q keys (cleanup now e).contribution_seen
    → IsFree now q keys e.contribution_seen
IsFree-before_cleanup now q [] e h = tt
IsFree-before_cleanup now q (key ∷ keys) e h =
    let k = contribution_key key q in
    (
      not_after-earlier now (lookup k e.contribution_seen)
          (lookup k (cleanup now e).contribution_seen) (λ t. cleanup-Capped k t now e) h.0,
      IsFree-before_cleanup now q keys e h.1,
    )

-- Each of the keys is capped for the query.
abbrev pub AllCapped : Time → Str → List Str → Evaluator → Type 0
AllCapped until q keys e = All (λ key. Capped (contribution_key key q) until e) keys

All-HasKey :
    (P : Str → Type 0) (keys : List Str) → ((key : Str) → HasKey key keys → P key) → All P keys
All-HasKey P [] f = tt
All-HasKey P (key ∷ keys) f = (f key (inl refl), All-HasKey P keys (λ k m. f k (inr m)))

-- The guards of `Evaluate` in the state before the call, and the caps in the state after it.
pub record Passes (c : Call) (e after : Evaluator) : Type 0 where
  pub has_ip : is_empty c.event.ip_hash ≡ false
  pub has_session : is_empty c.event.session_id_hash ≡ false
  pub has_query : is_empty c.query ≡ false
  pub configured : validate_config e.cfg ≡ none
  pub ip_open : still_after (time_of c) (lookup c.event.ip_hash e.ip_blocked_until) ≡ false
  pub session_open :
      still_after (time_of c) (lookup c.event.session_id_hash e.session_blocked_until) ≡ false
  pub free : IsFree (time_of c) c.query (identity_keys c.event) e.contribution_seen
  pub capped :
      AllCapped
        (add_duration (time_of c) e.cfg.contribution_window)
        c.query
        (identity_keys c.event)
        after

-- An event that `Evaluate` accepts names its ip and session, has a query, and met a valid
-- configuration. In the state before the call, clean-up not yet done, its ip and its session have
-- no block that ends after the time of the call, and none of its identity keys has a contribution
-- to the query that ends after it; in the state after the call each of these keys has one, until
-- the contribution window from then is over.
pub evaluate-Passes :
    (c : Call) (e : Evaluator) → (apply_call c e).0 ≡ none → Passes c e (apply_call c e).1
unfolding evaluate
evaluate-Passes c e h =
    let now = time_of c in
    let clean = cleanup now e in
    let (closed, counted) = evaluate_at-cases c.event c.query now e (ground arith) in
    let (ip, session) = blocked-none c.event now clean closed in
    record {
      has_ip = ground arith;
      has_session = ground arith;
      has_query = ground arith;
      configured = ground arith;
      ip_open =
          not_after-earlier now (lookup c.event.ip_hash e.ip_blocked_until)
            (lookup c.event.ip_hash clean.ip_blocked_until)
            (λ t. cleanup-IpBlocked c.event.ip_hash t now e) ip;
      session_open =
          not_after-earlier now (lookup c.event.session_id_hash e.session_blocked_until)
            (lookup c.event.session_id_hash clean.session_blocked_until)
            (λ t. cleanup-session_blocked c.event.session_id_hash t now e) session;
      free =
          IsFree-before_cleanup now c.query (identity_keys c.event) e
            (limit_rate-IsFree c.event c.query now clean counted);
      capped =
          All-HasKey
            (λ key.
              Capped (contribution_key key c.query) (add_duration now e.cfg.contribution_window)
                (apply_call c e).1)
            (identity_keys c.event) (λ key m. evaluate-accepted key c e m h);
    }

-- The reason of a rejection, if there is one, is a known one.
abbrev pub IsKnown : Option RejectError → Type 0
IsKnown none = Unit
IsKnown (some r) = r.reason ≢ RejectReason.unknown_reject_reason

track_session-IsKnown :
    (evt : SearchEvent) (q : Str) (now : Time) (e : Evaluator)
    → IsKnown (track_session evt q now e).0
unfolding track_session
track_session-IsKnown evt q now e = ground arith

contribute-IsKnown :
    (evt : SearchEvent) (q : Str) (now : Time) (e : Evaluator) → IsKnown (contribute evt q now e).0
unfolding contribute
contribute-IsKnown evt q now e =
    ground (arith, track_session-IsKnown evt q now (mark_contributions evt q now e))

limit_rate-IsKnown :
    (evt : SearchEvent) (q : Str) (now : Time) (e : Evaluator) → IsKnown (limit_rate evt q now e).0
unfolding limit_rate
limit_rate-IsKnown evt q now e =
    ground (arith, contribute-IsKnown evt q now (count_request evt.ip_hash (roll_minute now e)))

blocked-IsKnown : (evt : SearchEvent) (now : Time) (e : Evaluator) → IsKnown (blocked evt now e)
unfolding blocked session_blocked
blocked-IsKnown evt now e = ground arith

pub evaluate-IsKnown :
    (evt : SearchEvent) (q : Str) (now : Option Time) (clock : Time) (e : Evaluator)
    → IsKnown (evaluate evt q now clock e).0
unfolding evaluate evaluate_at
evaluate-IsKnown evt q now clock e =
    let t = Option.get_or now clock in
    ground (arith, blocked-IsKnown evt t (cleanup t e), limit_rate-IsKnown evt q t (cleanup t e))
