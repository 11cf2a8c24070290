-- ===== src/Ingest/Handler.antt =====
-- handler.go: `Handle`, over the interfaces of its dependencies. Their methods act on a state `S`
-- that stands for the objects behind the pointers.
use wb_trial_task.Common.{
  ℕ, Bool, ◌&&◌, Option, none, some, Str, ℤ, pos, leb_ℤ, if◌then◌else◌, ◌⊎◌, inl, inr,
}
use wb_trial_task.Clock.{Time, unix_milli}
use wb_trial_task.Domain.{SearchEvent, RejectError, RejectReason, Cause}

-- The interfaces `Normalizer`, `AntiFraud`, `Deduplicator` and `Aggregator`. `Add` may panic
-- (`none`); `Normalize` gives an error or a query.
pub record Methods (S : Type 0) : Type 0 where
  pub seen_or_add : Str → Time → S → Bool × S
  pub normalize : Str → S → Cause ⊎ Str
  pub evaluate : SearchEvent → Str → Time → S → Option RejectError × S
  pub add : Str → ℕ → ℤ → Time → S → Option S

-- `Dependencies`, with the nil checks of `isConfigured`. `clock` is the clock's reading in the
-- call, or `none` for a nil clock.
pub record Dependencies (S : Type 0) : Type 0 where
  pub methods : Methods S
  pub has_normalizer : Bool
  pub has_anti_fraud : Bool
  pub has_deduplicator : Bool
  pub has_aggregator : Bool
  pub clock : Option Time

-- The errors that `Handle` returns.
pub data HandleError : Type 0 where
  handler_not_configured : HandleError
  rejected : RejectError → HandleError

-- `reject`
abbrev pub reject : RejectReason → Cause → HandleError
reject reason err = rejected (record { reason = reason; err = some err })

-- the time of an event that carries none: `if ingestedAtMS <= 0 { … now.UnixMilli() }`
abbrev pub ingested_or_now : ℤ → Time → ℤ
ingested_or_now ms now = if leb_ℤ ms (pos 0) then pos (unix_milli now) else ms

module _ {S : Type 0} where
  -- `isConfigured`, with the clock's reading where there is a clock
  unfoldable pub configured_at : Dependencies S → Option Time
  configured_at d =
      if d.has_normalizer && d.has_anti_fraud && d.has_deduplicator && d.has_aggregator
      then d.clock
      else none

  -- The stages of `Handle`, each the rest of the method from there on. `none` is a panic; an
  -- error of `none` is nil.
  unfoldable pub aggregate :
      Methods S → SearchEvent → Str → Time → S → Option (Option HandleError × S)
  aggregate m evt query now s =
      elim (m.add query 1 (ingested_or_now evt.ingested_at_ms now) now s) [
        | none ↦ none
        | some s' ↦ some (none, s')
      ]

  unfoldable pub evaluate_and_add :
      Methods S → SearchEvent → Str → Time → S → Option (Option HandleError × S)
  unfolding aggregate
  evaluate_and_add m evt query now s =
      let (r, s') = m.evaluate evt query now s in
      elim r [ some e ↦ some (some (rejected e), s') | none ↦ aggregate m evt query now s' ]

  unfoldable pub normalize_and_add :
      Methods S → SearchEvent → Time → S → Option (Option HandleError × S)
  unfolding evaluate_and_add
  normalize_and_add m evt now s = elim (m.normalize evt.query_raw s) [
    | inl err ↦ some (some (reject RejectReason.invalid_query err), s)
    | inr query ↦ evaluate_and_add m evt query now s
  ]

  unfoldable pub handle_at : Methods S → SearchEvent → Time → S → Option (Option HandleError × S)
  unfolding normalize_and_add
  handle_at m evt now s =
      let (seen, s') = m.seen_or_add evt.event_id now s in
      if seen
      then some (some (reject RejectReason.duplicate_event_id Cause.duplicate_event), s')
      else normalize_and_add m evt now s'

  -- `Handle`
  unfoldable pub handle : Dependencies S → SearchEvent → S → Option (Option HandleError × S)
  handle d evt s = elim (configured_at d) [
    | none ↦ some (some handler_not_configured, s)
    | some now ↦ handle_at d.methods evt now s
  ]
