-- ===== src/AntiFraud/Session.antt =====
-- The entropy limit: what the evaluator keeps of a session.
use mathlib.Core.Path.{subst}
use mathlib.Core.Logic.{if_pos, if_neg}
use wb_trial_task.Common.{
  ℕ, ◌+◌, ◌-◌, ◌≤◌, ◌≡◌, some, List, [], ◌∷◌, ◌++◌, arith, ltb, Str, Str-discrete, inl, inr,
  Option-cases, Bool-cases, ite, length,
}
use wb_trial_task.Common.Dict.{Dict, get, lookup, insert, erase, lookup-insert, lookup-erase}
use wb_trial_task.Common.Tally.{
  IsTally, insert-IsTally, erase-IsTally, length-erase-le, length-insert_present,
}
use wb_trial_task.Clock.{Time, Duration, sub_duration}
use wb_trial_task.AntiFraud.State.{
  SessionEvent, SessionEntropyState, uncount, prune_events, prune_session_state,
}
use wb_trial_task.AntiFraud.Rules.{observe}

-- How many events of the list have the query.
abbrev pub occurrences : Str → List SessionEvent → ℕ
occurrences q [] = 0
occurrences q (x ∷ events) = ite (Str-discrete x.query q) 1 0 + occurrences q events

-- The counts of a session are those of its events, with an entry for each query that occurs.
pub record IsConsistent (events : List SessionEvent) (counts : Dict ℕ) : Type 0 where
  pub tally : IsTally counts
  pub counted : (q : Str) → get q counts ≡ occurrences q events

get-uncount :
    (q j : Str) (counts : Dict ℕ)
    → get j (uncount q counts) ≡ ite (Str-discrete q j) (get j counts - 1) (get j counts)
get-uncount q j counts =
    ground (arith, lookup-erase q j counts, lookup-insert q j (get q counts - 1) counts)

uncount-IsTally : (q : Str) (counts : Dict ℕ) → IsTally counts → IsTally (uncount q counts)
uncount-IsTally q counts h =
    ground (arith, erase-IsTally q counts h, insert-IsTally q (get q counts - 1) counts)

length-uncount-le : (q : Str) (counts : Dict ℕ) → length (uncount q counts) ≤ length counts
length-uncount-le q counts = elim (Option-cases (lookup q counts)) [
  | inl out ↦ ground (arith, length-erase-le q counts)
  | inr (v, found) ↦
      ground
        (arith, length-erase-le q counts, length-insert_present q (get q counts - 1) v counts found)
]

-- Pruning keeps the counts those of the events.
pub prune_events-IsConsistent :
    (cutoff : Time) (events : List SessionEvent) (counts : Dict ℕ)
    → IsConsistent events counts
    → let (events', counts') = prune_events cutoff events counts in IsConsistent events' counts'
unfolding prune_events
prune_events-IsConsistent cutoff [] counts h = h
prune_events-IsConsistent cutoff (x ∷ events) counts h =
    let rest = prune_events-IsConsistent cutoff events (uncount x.query counts) (record {
      tally = uncount-IsTally x.query counts h.tally;
      counted = λ j. ground (arith, get-uncount x.query j counts, h.counted j);
    }) in
    elim (Bool-cases (ltb x.at cutoff)) [
      | inl old ↦ rw (old, prune_events) rest
      | inr new ↦ rw (new, prune_events) h
    ]

pub length-prune_events-le :
    (cutoff : Time) (events : List SessionEvent) (counts : Dict ℕ)
    → length (prune_events cutoff events counts).1 ≤ length counts
unfolding prune_events
length-prune_events-le cutoff [] counts = omega arith
length-prune_events-le cutoff (x ∷ events) counts = ground (
  arith,
  length-prune_events-le cutoff events (uncount x.query counts),
  length-uncount-le x.query counts,
)

-- A stored session: consistent, and with at most `max` different queries.
pub record SessionOk (max : ℕ) (s : SessionEntropyState) : Type 0 where
  pub consistent : IsConsistent s.events s.counts
  pub few : length s.counts ≤ max

pub prune_session_state-SessionOk :
    (max : ℕ) (cutoff : Time) (s : SessionEntropyState)
    → SessionOk max s
    → SessionOk max (prune_session_state cutoff s)
unfolding prune_session_state
prune_session_state-SessionOk max cutoff s h = record {
  consistent = prune_events-IsConsistent cutoff s.events s.counts h.consistent;
  few = omega (arith, length-prune_events-le cutoff s.events s.counts, h.few);
}

pub occurrences-append :
    (q : Str) (x : SessionEvent) (events : List SessionEvent)
    → occurrences q (events ++ x ∷ []) ≡ occurrences q events + ite (Str-discrete x.query q) 1 0
occurrences-append q x [] = omega arith
occurrences-append q x (y ∷ events) = omega (arith, occurrences-append q x events)

pub observe-IsConsistent :
    (now : Time) (q : Str) (window : Duration) (s : SessionEntropyState)
    → IsConsistent s.events s.counts
    → IsConsistent (observe now q window s).events (observe now q window s).counts
unfolding observe prune_session_state
observe-IsConsistent now q window s h =
    let (events, counts) = prune_events (sub_duration now window) s.events s.counts in
    let k = prune_events-IsConsistent (sub_duration now window) s.events s.counts h in
    record {
      tally = insert-IsTally q (get q counts + 1) counts (omega arith) k.tally;
      counted = λ j. ground (
        arith,
        k.counted j,
        lookup-insert q j (get q counts + 1) counts,
        occurrences-append j (record { at = now; query = q }) events,
      );
    }

-- A property of every stored session.
abbrev pub AllSessions {ℓ} : (SessionEntropyState → Type ℓ) → Dict SessionEntropyState → Type ℓ
AllSessions P [] = Unit
AllSessions P ((k, s) ∷ d) = P s × AllSessions P d

module _ {ℓ} (P : SessionEntropyState → Type ℓ) where
  pub AllSessions-lookup :
      (k : Str) (s : SessionEntropyState) (d : Dict SessionEntropyState)
      → AllSessions P d
      → lookup k d ≡ some s
      → P s
  unfolding lookup
  AllSessions-lookup k s [] a h = cc
  AllSessions-lookup k s ((j, t) ∷ d) a h = elim (Str-discrete j k) [
    | yes same ↦ let e : t ≡ s = ground arith in subst P e a.0
    | no other ↦ AllSessions-lookup k s d a.1 (ground arith)
  ]

  pub AllSessions-insert :
      (k : Str) (s : SessionEntropyState) (d : Dict SessionEntropyState)
      → P s
      → AllSessions P d
      → AllSessions P (insert k s d)
  unfolding insert
  AllSessions-insert k s [] p a = (p, tt)
  AllSessions-insert k s ((j, t) ∷ d) p a = elim (Str-discrete j k) [
    | yes same ↦ rw (if_pos (Str-discrete j k) same) (p, a.1)
    | no other ↦ rw (if_neg (Str-discrete j k) other) (a.0, AllSessions-insert k s d p a.1)
  ]

  pub AllSessions-erase :
      (k : Str) (d : Dict SessionEntropyState) → AllSessions P d → AllSessions P (erase k d)
  unfolding erase
  AllSessions-erase k [] a = tt
  AllSessions-erase k ((j, t) ∷ d) a = elim (Str-discrete j k) [
    | yes same ↦ rw (if_pos (Str-discrete j k) same) (AllSessions-erase k d a.1)
    | no other ↦ rw (if_neg (Str-discrete j k) other) (a.0, AllSessions-erase k d a.1)
  ]
