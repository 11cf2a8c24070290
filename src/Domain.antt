-- ===== src/Domain.antt =====
-- internal/domain: the search event, the reasons for which an event is rejected, and the top.
use wb_trial_task.Common.{ℕ, Str, runes, Bool, Option, none, some, List, [], ◌++◌, ℤ}
use wb_trial_task.Clock.{Time}

pub record SearchEvent : Type 0 where
  pub schema_version : ℤ
  pub event_type : Str
  pub event_id : Str
  pub ingested_at_ms : ℤ
  pub event_time_ms : ℤ
  pub query_raw : Str
  pub source : Str
  pub platform : Str
  pub app_version : Str
  pub ip_hash : Str
  pub session_id_hash : Str
  pub auth_state : Str
  pub user_id_hash : Option Str  -- a `*string`
  pub is_test_traffic : Bool
  pub is_replay : Bool
  pub producer_region : Str
  pub normalizer_version : Str

-- A score is a `float64` in the source. The service only ever adds the score 1, so scores are
-- whole numbers here, which `float64` holds exactly up to 2^53.
pub record TopItem : Type 0 where
  pub rank : ℕ
  pub query : Str
  pub score : ℕ
  pub count : ℕ
  pub unique_sources : ℕ

pub record TopSnapshot : Type 0 where
  pub generated_at_ms : ℕ
  pub window_seconds : ℕ
  pub items : List TopItem

pub data RejectReason : Type 0 where
  unknown_reject_reason : RejectReason
  invalid_json schema_validation_failed mapping_failed : RejectReason
  invalid_query duplicate_event_id : RejectReason
  anti_fraud_missing_identifiers anti_fraud_ip_rate_limit anti_fraud_ip_blocked : RejectReason
  anti_fraud_contribution_cap anti_fraud_session_entropy anti_fraud_degraded : RejectReason

-- `string(reason)`
unfoldable pub reason_text : RejectReason → Str
reason_text unknown_reject_reason = runes "UNKNOWN_REJECT_REASON"
reason_text invalid_json = runes "INVALID_JSON"
reason_text schema_validation_failed = runes "SCHEMA_VALIDATION_FAILED"
reason_text mapping_failed = runes "MAPPING_FAILED"
reason_text invalid_query = runes "INVALID_QUERY"
reason_text duplicate_event_id = runes "DUPLICATE_EVENT_ID"
reason_text anti_fraud_missing_identifiers = runes "ANTI_FRAUD_MISSING_IDENTIFIERS"
reason_text anti_fraud_ip_rate_limit = runes "ANTI_FRAUD_IP_RATE_LIMIT"
reason_text anti_fraud_ip_blocked = runes "ANTI_FRAUD_IP_BLOCKED"
reason_text anti_fraud_contribution_cap = runes "ANTI_FRAUD_CONTRIBUTION_CAP"
reason_text anti_fraud_session_entropy = runes "ANTI_FRAUD_SESSION_ENTROPY"
reason_text anti_fraud_degraded = runes "ANTI_FRAUD_DEGRADED"

-- The `error` inside a `RejectError`: one constructor for each message that the code builds.
pub data Cause : Type 0 where
  evaluator_is_nil missing_identifiers normalized_query_is_empty : Cause
  invalid_config : Str → Cause  -- the field that must be > 0
  ip_blocked_until session_blocked_until : Time → Cause
  ip_rate_limit_exceeded session_entropy_exceeded : Cause
  contribution_cap_exceeded_for : Str → Cause
  duplicate_event err_invalid_query err_invalid_argument : Cause
  other_cause : Str → Cause  -- an error of a library

pub record RejectError : Type 0 where
  pub reason : RejectReason
  pub err : Option Cause

-- `Error` and `Unwrap` of a `*RejectError`, over the text of the error inside it
unfoldable pub error : (Cause → Str) → Option RejectError → Str
error text none = []
error text (some e) = elim e.err [
  | none ↦ reason_text e.reason
  | some cause ↦ reason_text e.reason ++ runes ": " ++ text cause
]

unfoldable pub unwrap : Option RejectError → Option Cause
unwrap none = none
unwrap (some e) = e.err
