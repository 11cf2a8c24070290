-- ===== src/Http/Response.antt =====
-- error_messages.go, and the writers of handlers_top.go.
use wb_trial_task.Common.{ℕ, Bool, List, Str, runes, ℤ}
use wb_trial_task.Domain.{TopItem}

-- What is written: a payload of `writeJSON`, by its fields, or a text.
pub data Body : Type 0 where
  error_body : (code message : Str) → Body
  top_body :
      (generated_at_ms window_seconds : ℕ) (n : ℤ) (items : List TopItem) (freshness_lag_ms : ℤ)
      → Body
  health_body : (status version : Str) (kafka_connected snapshot_ready : Bool) → Body
  words_body : (version : ℤ) (words : List Str) (updated_at_ms : ℕ) → Body
  version_body : (version : ℤ) → Body  -- with the status "ok"
  text_body : Str → Body

pub record Response : Type 0 where
  pub status : ℕ
  pub content_type : Str
  pub body : Body

abbrev pub write_json : ℕ → Body → Response
write_json status payload = record {
  status = status;
  content_type = runes "application/json";
  body = payload;
}

abbrev pub write_error : ℕ → Str → Str → Response
write_error status code message = write_json status (error_body code message)

abbrev pub code_invalid_argument : Str
code_invalid_argument = runes "INVALID_ARGUMENT"

abbrev pub code_unauthorized : Str
code_unauthorized = runes "UNAUTHORIZED"

abbrev pub code_conflict : Str
code_conflict = runes "CONFLICT"

abbrev pub code_not_found : Str
code_not_found = runes "NOT_FOUND"

abbrev pub code_unavailable : Str
code_unavailable = runes "UNAVAILABLE"

abbrev pub msg_top_unavailable : Str
msg_top_unavailable = runes "top is unavailable"

abbrev pub msg_stop_list_unavailable : Str
msg_stop_list_unavailable = runes "stop-list is unavailable"

abbrev pub msg_metrics_unavailable : Str
msg_metrics_unavailable = runes "metrics are unavailable"

abbrev pub msg_invalid_top_n : Str
msg_invalid_top_n = runes "n must be in range [1, 100]"

abbrev pub msg_invalid_json : Str
msg_invalid_json = runes "invalid json body"

abbrev pub msg_word_empty : Str
msg_word_empty = runes "word must not be empty"

abbrev pub msg_word_already_exist : Str
msg_word_already_exist = runes "word already exists"

abbrev pub msg_word_not_found : Str
msg_word_not_found = runes "word not found"

abbrev pub msg_invalid_admin_auth : Str
msg_invalid_admin_auth = runes "invalid or missing X-Admin-Token"
