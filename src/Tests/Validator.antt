-- ===== src/Tests/Validator.antt =====
-- The service with a validator over small stand-ins of its libraries.
use wb_trial_task.Common.{ℕ, ◌≡◌, ◌*◌, none, some, List, [], ◌∷◌, inl, inr, runes}
use wb_trial_task.Clock.{second}
use wb_trial_task.Domain.{Cause}
use wb_trial_task.Ingest.{handle_raw}
use wb_trial_task.Ingest.System.{System}
use wb_trial_task.Ingest.Consumed.{Report, service_handler}
use wb_trial_task.Validator.{Json, validate_and_map}
use wb_trial_task.Validator.Reasons.{Named, handle_raw-names_reason}
use wb_trial_task.Tests.Data.{ascii, busy_engine-IsValid}
use wb_trial_task.Tests.Ingest.{system}

-- A reader whose values are payloads, that takes any for an instance and decodes none.
abbrev json : Json (List ℕ)
json = record {
  unmarshal = λ payload. inr payload;
  validate = λ value. none;
  unmarshal_payload = λ payload. inl (Cause.other_cause (runes "unexpected end of JSON input"));
}

abbrev log_report : Report → List Report → List Report
log_report r log = r ∷ log

handle_raw-names_reason_example :
    (s' : System) × (log' : List Report) × (handle_raw
        (service_handler log_report ascii (validate_and_map json) (12 * second))
        (runes "{")
        (system, [])
      ≡ some (none, (s', log')))
    × Named json log_report ascii (12 * second) (runes "{") [] log'
handle_raw-names_reason_example =
    handle_raw-names_reason json log_report ascii (12 * second) (runes "{") system []
      busy_engine-IsValid
