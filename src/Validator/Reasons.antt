-- ===== src/Validator/Reasons.antt =====
-- The service with its validator: every rejection that is reported names its reason.
use wb_trial_task.Common.{ℕ, ◌≡◌, ◌≢◌, none, some, List, arith, ◌⊎◌, inl, inr}
use wb_trial_task.Clock.{Time}
use wb_trial_task.Domain.{RejectReason}
use wb_trial_task.Window.Invariant.{IsValid}
use wb_trial_task.Normalizer.{Unicode}
use wb_trial_task.Ingest.{ErrorValue, reject_reason, handle_raw}
use wb_trial_task.Ingest.System.{System}
use wb_trial_task.Ingest.Consumed.{
  Report, refused, counted, lag, service_handler, Outcome, handle_raw-returns_nil,
}
use wb_trial_task.Validator.{Json, validate_and_map, validate_instance, map_payload}

module _ {J : Type 0} (json : Json J) where
  -- An error of the validator is a rejection for one of the three reasons of its stages.
  pub validate_and_map-known :
      (payload : List ℕ) (e : ErrorValue)
      → validate_and_map json payload ≡ inl e
      → reject_reason e ≢ RejectReason.unknown_reject_reason
  unfolding validate_and_map validate_instance map_payload reject_reason
  validate_and_map-known payload e h u = ground arith

  module _ {R : Type 0} (report : Report → R → R) (u : Unicode) (now : Time) where
    -- What `HandleRaw` may report of a message: a rejection whose reason is not the unknown one, or
    -- one ingest.
    abbrev pub Named : List ℕ → R → R → Type 0
    Named payload log log' =
        ((r : RejectReason) × (log' ≡ report (refused r) log)
          × (r ≢ RejectReason.unknown_reject_reason))
        ⊎ ((log' ≡ report counted log) ⊎ ((ms : ℕ) × (log' ≡ report (lag ms) (report counted log))))

    named :
        (payload : List ℕ) (s s' : System) (log log' : R)
        → Outcome report u (validate_and_map json) now payload s log s' log'
        → Named payload log log'
    named payload s s' log log' (inl (r, e, same, inl (err, bad, is))) =
        inl (r, e, λ unknown. validate_and_map-known payload err bad (ground arith))
    named payload s s' log log' (inl (r, e, same, inr (evt, found, out, known))) = inl (r, e, known)
    named payload s s' log log' (inr (evt, found, settled, logged)) = inr logged

    -- With the service's own validator, on a valid engine, `HandleRaw` returns nil and reports
    -- every message, as one ingest or under a reason other than `UNKNOWN_REJECT_REASON`.
    pub handle_raw-names_reason :
        (payload : List ℕ) (s : System) (log : R)
        → IsValid s.engine
        → (s' : System) × (log' : R) × (handle_raw
              (service_handler report u (validate_and_map json) now)
              payload
              (s, log)
            ≡ some (none, (s', log')))
          × Named payload log log'
    handle_raw-names_reason payload s log v =
        let (s', log', runs, valid, outcome) =
          handle_raw-returns_nil report u (validate_and_map json) now payload s log v in
        (s', log', runs, named payload s s' log log' outcome)
