-- ===== src/Ingest/Atomicity.antt =====
-- An event counts once or not at all: what `Handle` does to the service's state on every path.
use mathlib.Core.Path.{subst}
use wb_trial_task.Common.{
  ◌≢◌, ◌≡◌, refl, true, false, Option, none, some, arith, Str, Bool-cases, Option-cases, inl, inr,
  if◌then◌else◌,
}
use wb_trial_task.Clock.{Time}
use wb_trial_task.Domain.{SearchEvent, RejectError, RejectReason, Cause}
use wb_trial_task.Window
use wb_trial_task.Window.{Engine}
use wb_trial_task.Window.Invariant.{IsValid, add-IsValid}
use wb_trial_task.Dedup.{seen_or_add}
use wb_trial_task.Normalizer.{Unicode, normalize}
use wb_trial_task.AntiFraud.{evaluate}
use wb_trial_task.AntiFraud.Guards.{IsKnown, evaluate-IsKnown}
use wb_trial_task.Ingest.Handler.{
  HandleError, rejected, handler_not_configured, reject, ingested_or_now, handle_at, configured_at,
  handle,
}
use wb_trial_task.Ingest.System.{System, system_dependencies}

module _ (u : Unicode) (now : Time) (evt : SearchEvent) where
  abbrev pub handle_now : System → Option (Option HandleError × System)
  handle_now = handle (system_dependencies u now) evt

  -- The query that the event counts for, or `none` where it does not count: its id is new, its text
  -- has a normalized query, and the evaluator lets that pass.
  abbrev pub counted_query : System → Option Str
  counted_query s =
      if (seen_or_add evt.event_id now s.dedup).0
      then none
      else elim (normalize u s.normalizer evt.query_raw) [
        | none ↦ none
        | some q ↦ elim (evaluate evt q (some now) now s.fraud).0 [ none ↦ some q | some r ↦ none ]
      ]

  -- What a call may have done to the state, by its error. With no error the event counts for a
  -- query, and exactly one count of it was added to the engine. An error is a rejection, of an
  -- event that does not count; the engine is then untouched and the reason a known one.
  abbrev pub Settled : System → Option HandleError → System → Type 0
  Settled s none s' =
      (q : Str) × (counted_query s ≡ some q)
      × (Window.add q 1 (ingested_or_now evt.ingested_at_ms now) now s.engine ≡ some s'.engine)
  Settled s (some (rejected r)) s' =
      (s'.engine ≡ s.engine)
      × (r.reason ≢ RejectReason.unknown_reject_reason)
      × (counted_query s ≡ none)
  Settled s (some handler_not_configured) s' = ⊥

  -- The parts that no path changes otherwise.
  abbrev pub Kept : System → System → Type 0
  Kept s s' = (s'.dedup ≡ (seen_or_add evt.event_id now s.dedup).1) × (s'.normalizer ≡ s.normalizer)

  abbrev pub after_dedup : System → System
  after_dedup s = record s { dedup = (seen_or_add evt.event_id now s.dedup).1 }

  abbrev after_fraud : Str → System → System
  after_fraud q s = record (after_dedup s) { fraud = (evaluate evt q (some now) now s.fraud).1 }

  pub handle-duplicate :
      (s : System)
      → (seen_or_add evt.event_id now s.dedup).0 ≡ true
      → handle_now s
        ≡ some (some (reject RejectReason.duplicate_event_id Cause.duplicate_event), after_dedup s)
  unfolding handle configured_at handle_at
  handle-duplicate s dup = ground arith

  handle-invalid :
      (s : System)
      → (seen_or_add evt.event_id now s.dedup).0 ≡ false
      → normalize u s.normalizer evt.query_raw ≡ none
      → handle_now s
        ≡ some (some (reject RejectReason.invalid_query Cause.err_invalid_query), after_dedup s)
  unfolding handle configured_at handle_at
  handle-invalid s new bad = ground arith

  handle-suspect :
      (s : System) (q : Str) (r : RejectError)
      → (seen_or_add evt.event_id now s.dedup).0 ≡ false
      → normalize u s.normalizer evt.query_raw ≡ some q
      → (evaluate evt q (some now) now s.fraud).0 ≡ some r
      → handle_now s ≡ some (some (rejected r), after_fraud q s)
  unfolding handle configured_at handle_at
  handle-suspect s q r new ok bad = ground arith

  handle-counted :
      (s : System) (q : Str) (e : Engine)
      → (seen_or_add evt.event_id now s.dedup).0 ≡ false
      → normalize u s.normalizer evt.query_raw ≡ some q
      → (evaluate evt q (some now) now s.fraud).0 ≡ none
      → Window.add q 1 (ingested_or_now evt.ingested_at_ms now) now s.engine ≡ some e
      → handle_now s ≡ some (none, record (after_fraud q s) { engine = e })
  unfolding handle configured_at handle_at
  handle-counted s q e new ok pass add = ground arith

  -- On a valid engine `Handle` returns on every path, with a valid engine: with no error just
  -- where the event counts, and then once, or with a rejection, and then not at all.
  pub handle-Settled :
      (s : System)
      → IsValid s.engine
      → (err : Option HandleError) × (s' : System) × (handle_now s ≡ some (err, s'))
        × Settled s err s'
        × Kept s s'
        × IsValid s'.engine
  handle-Settled s v = elim (Bool-cases (seen_or_add evt.event_id now s.dedup).0) [
    | inl dup ↦ (
      some (reject RejectReason.duplicate_event_id Cause.duplicate_event),
      after_dedup s,
      handle-duplicate s dup,
      (refl, λ e. cc, rw dup refl),
      (refl, refl),
      v,
    )
    | inr new ↦ elim (Option-cases (normalize u s.normalizer evt.query_raw)) [
      | inl bad ↦ (
        some (reject RejectReason.invalid_query Cause.err_invalid_query),
        after_dedup s,
        handle-invalid s new bad,
        (refl, λ e. cc, rw (new, bad) refl),
        (refl, refl),
        v,
      )
      | inr (q, ok) ↦ elim (Option-cases (evaluate evt q (some now) now s.fraud).0) [
        | inr (r, bad) ↦ (
          some (rejected r),
          after_fraud q s,
          handle-suspect s q r new ok bad,
          (
            refl,
            subst IsKnown bad (evaluate-IsKnown evt q (some now) now s.fraud),
            rw (new, ok, bad) refl,
          ),
          (refl, refl),
          v,
        )
        | inl pass ↦
            let (e, add, ve) =
              add-IsValid q 1 (ingested_or_now evt.ingested_at_ms now) now s.engine v in
            (
              none,
              record (after_fraud q s) { engine = e },
              handle-counted s q e new ok pass add,
              (q, rw (new, ok, pass) refl, add),
              (refl, refl),
              ve,
            )
      ]
    ]
  ]
