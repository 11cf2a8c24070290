-- ===== src/Ingest/Runtime.antt =====
-- runtime_handler.go: `HandleRaw`, which validates a payload, handles the event and reports what
-- was rejected. A nil error means that the message is done.
use wb_trial_task.Common.{
  ℕ, ◌-◌, Bool, Option, none, some, List, pos, leb_ℤ, if◌then◌else◌, ◌⊎◌, inl, inr, pos_part,
}
use wb_trial_task.Clock.{Time, unix_milli}
use wb_trial_task.Domain.{SearchEvent, RejectError, RejectReason, Cause}
use wb_trial_task.Ingest.Handler.{
  Dependencies, HandleError, handler_not_configured, rejected, handle,
}

-- An `error` as `errors.As` sees it: a `RejectError` somewhere in its chain, or none.
pub data ErrorValue : Type 0 where
  reject_error : RejectError → ErrorValue
  other_error : Cause → ErrorValue

-- `rejectReason`
unfoldable pub reject_reason : ErrorValue → RejectReason
reject_reason (reject_error e) = e.reason
reject_reason (other_error c) = RejectReason.unknown_reject_reason

-- What `HandleRaw` returns to the consumer.
pub data RawError : Type 0 where
  runtime_not_configured : RawError
  handle_failed : HandleError → RawError

-- The validator, the reporter of rejections and the metrics, on the state `S`. A nil reporter
-- only logs and nil metrics do nothing: both are then functions that leave the state alone.
pub record RuntimeParts (S : Type 0) : Type 0 where
  pub validate_and_map : List ℕ → ErrorValue ⊎ SearchEvent
  pub report_reject : RejectReason → S → S
  pub inc_ingest : S → S
  pub observe_ingest_lag_ms : ℕ → S → S

-- `RuntimeHandler`: nil validator or nil handler is `none`.
pub record RuntimeHandler (S : Type 0) : Type 0 where
  pub parts : RuntimeParts S
  pub has_validator : Bool
  pub handler : Option (Dependencies S)
  pub now : Time

module _ {S : Type 0} where
  -- The metrics of an event that counted. The lag is 0 where the event lies in the future.
  unfoldable pub observe_success : RuntimeParts S → SearchEvent → Time → S → S
  observe_success p evt now s =
      let s' = p.inc_ingest s in
      if leb_ℤ evt.ingested_at_ms (pos 0)
      then s'
      else p.observe_ingest_lag_ms (unix_milli now - pos_part evt.ingested_at_ms) s'

  -- what follows the call of `Handle`
  unfoldable pub finish :
      RuntimeHandler S → SearchEvent → Option HandleError → S → Option RawError × S
  unfolding observe_success
  finish h evt none s = (none, observe_success h.parts evt h.now s)
  finish h evt (some (rejected e)) s = (none, h.parts.report_reject e.reason s)
  finish h evt (some handler_not_configured) s = (some (handle_failed handler_not_configured), s)

  unfoldable pub handle_event :
      RuntimeHandler S → Dependencies S → SearchEvent → S → Option (Option RawError × S)
  handle_event h d evt s = elim (handle d evt s) [
    | none ↦ none
    | some (err, s') ↦ some (finish h evt err s')
  ]

  unfoldable pub handle_payload :
      RuntimeHandler S → Dependencies S → List ℕ → S → Option (Option RawError × S)
  unfolding handle_event
  handle_payload h d payload s = elim (h.parts.validate_and_map payload) [
    | inl err ↦ some (none, h.parts.report_reject (reject_reason err) s)
    | inr evt ↦ handle_event h d evt s
  ]

  -- `HandleRaw`; an error of `none` is nil
  unfoldable pub handle_raw : RuntimeHandler S → List ℕ → S → Option (Option RawError × S)
  unfolding handle_payload
  handle_raw h payload s =
      if h.has_validator
      then elim h.handler [
        | none ↦ some (some runtime_not_configured, s)
        | some d ↦ handle_payload h d payload s
      ]
      else some (some runtime_not_configured, s)
