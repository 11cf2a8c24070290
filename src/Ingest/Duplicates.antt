-- ===== src/Ingest/Duplicates.antt =====
-- Redelivery: a message that the broker delivers again does not count twice.
use wb_trial_task.Common.{
  ◌≡◌, ◌<◌, refl, ap, ◌∙◌, true, false, Option, none, some, List, [], ◌∷◌, is_empty, All,
}
use wb_trial_task.Clock.{Time, add_duration}
use wb_trial_task.Domain.{SearchEvent, RejectReason, Cause}
use wb_trial_task.Window.Invariant.{IsValid}
use wb_trial_task.Dedup.{seen_or_add}
use wb_trial_task.Dedup.History.{Request, run_requests, seen_or_add-remembers}
use wb_trial_task.Normalizer.{Unicode}
use wb_trial_task.Ingest.Handler.{reject}
use wb_trial_task.Ingest.System.{System}
use wb_trial_task.Ingest.Atomicity.{handle_now, handle-Settled, handle-duplicate, after_dedup}

-- An event as it reaches the handler, with the reading of the clock.
pub record Delivery : Type 0 where
  pub at : Time
  pub event : SearchEvent

abbrev pub requests_of : List Delivery → List Request
requests_of [] = []
requests_of (d ∷ ds) = record { key = d.event.event_id; now = d.at } ∷ requests_of ds

module _ (u : Unicode) where
  -- The state after the handler has seen the deliveries in turn; `none` is a panic.
  unfoldable pub run_deliveries : List Delivery → System → Option System
  run_deliveries [] s = some s
  run_deliveries (d ∷ ds) s = elim (handle_now u d.at d.event s) [
    | none ↦ none
    | some (err, s') ↦ run_deliveries ds s'
  ]

  -- Deliveries never panic on a valid engine, and the deduplicator sees their ids in turn.
  run_deliveries-dedup :
      (ds : List Delivery) (s : System)
      → IsValid s.engine
      → (s' : System) × (run_deliveries ds s ≡ some s')
        × (s'.dedup ≡ run_requests (requests_of ds) s.dedup)
        × IsValid s'.engine
  unfolding run_deliveries run_requests
  run_deliveries-dedup [] s v = (s, refl, refl, v)
  run_deliveries-dedup (d ∷ ds) s v =
      let (err, s₁, runs, settled, kept, v₁) = handle-Settled u d.at d.event s v in
      let (s₂, rest, same, v₂) = run_deliveries-dedup ds s₁ v₁ in
      (s₂, rw (runs, run_deliveries) rest, same ∙ ap (run_requests (requests_of ds)) kept.0, v₂)

  All-requests_of :
      (exp : Time) (ds : List Delivery)
      → All (λ d. d.at < exp) ds
      → All (λ (r : Request). r.now < exp) (requests_of ds)
  All-requests_of exp [] a = tt
  All-requests_of exp (d ∷ ds) a = (a.0, All-requests_of exp ds a.1)

  -- Once an event with a new, non-empty id is handled at time `t`, whatever came of it, a delivery
  -- with the same id before `t + ttl` is rejected as a duplicate and leaves the engine as it is,
  -- whatever deliveries come between at times before then; none of the calls panics.
  pub redelivery_counts_once :
      (first again : Delivery) (between : List Delivery) (s : System)
      → IsValid s.engine
      → is_empty first.event.event_id ≡ false
      → (seen_or_add first.event.event_id first.at s.dedup).0 ≡ false
      → again.event.event_id ≡ first.event.event_id
      → All (λ d. d.at < add_duration first.at s.dedup.ttl) between
      → again.at < add_duration first.at s.dedup.ttl
      → (s₁ : System) × (s₂ : System) × (run_deliveries (first ∷ between) s ≡ some s₁)
        × (handle_now u again.at again.event s₁
            ≡ some (some (reject RejectReason.duplicate_event_id Cause.duplicate_event), s₂))
        × (s₂.engine ≡ s₁.engine)
  unfolding run_deliveries run_requests
  redelivery_counts_once first again between s v ne new same before lt =
      let (s₁, runs, dedup, v₁) = run_deliveries-dedup (first ∷ between) s v in
      let dup : (seen_or_add again.event.event_id again.at s₁.dedup).0 ≡ true =
        rw (same, dedup)
          (seen_or_add-remembers first.event.event_id first.at again.at (requests_of between)
            s.dedup ne new (All-requests_of (add_duration first.at s.dedup.ttl) between before)
            lt) in
      (
        s₁,
        after_dedup u again.at again.event s₁,
        runs,
        handle-duplicate u again.at again.event s₁ dup,
        refl,
      )
