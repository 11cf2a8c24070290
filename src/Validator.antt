-- ===== src/Validator.antt =====
-- internal/adapters/contracts/search_event_validator.go: `ValidateAndMap` over the libraries for
-- JSON and JSON schemas, which are arguments.
pub mod Reasons
use wb_trial_task.Common.{
  ℕ, Bool, Option, none, some, List, Str, is_empty, ℤ, if◌then◌else◌, ◌⊎◌, inl, inr, runes,
}
use wb_trial_task.Domain.{SearchEvent, RejectReason, Cause}
use wb_trial_task.Ingest.{ErrorValue, reject_error}

-- `searchEventPayload`
pub record SearchEventPayload : Type 0 where
  pub schema_version : ℤ
  pub event_type : Str
  pub event_id : Str
  pub ingested_at_ms : ℤ
  pub event_time_ms : ℤ
  pub query_raw : Str
  pub source : Str
  pub platform : Str
  pub app_version : Str
  pub ip_hash : Str
  pub session_id_hash : Str
  pub auth_state : Str
  pub user_id_hash : Option Str
  pub is_test_traffic : Bool
  pub is_replay : Bool
  pub producer_region : Str
  pub normalizer_version : Str

-- The calls of the libraries, with `J` for a JSON value: `jsonschema.UnmarshalJSON`, the compiled
-- schema's `Validate`, and `json.Unmarshal` into the payload's type.
pub record Json (J : Type 0) : Type 0 where
  pub unmarshal : List ℕ → Cause ⊎ J
  pub validate : J → Option Cause
  pub unmarshal_payload : List ℕ → Cause ⊎ SearchEventPayload

-- `reject`
abbrev pub reject : RejectReason → Cause → ErrorValue
reject reason err = reject_error (record { reason = reason; err = some err })

abbrev pub event_of : SearchEventPayload → SearchEvent
event_of input = record {
  schema_version = input.schema_version;
  event_type = input.event_type;
  event_id = input.event_id;
  ingested_at_ms = input.ingested_at_ms;
  event_time_ms = input.event_time_ms;
  query_raw = input.query_raw;
  source = input.source;
  platform = input.platform;
  app_version = input.app_version;
  ip_hash = input.ip_hash;
  session_id_hash = input.session_id_hash;
  auth_state = input.auth_state;
  user_id_hash = input.user_id_hash;
  is_test_traffic = input.is_test_traffic;
  is_replay = input.is_replay;
  producer_region = input.producer_region;
  normalizer_version = input.normalizer_version;
}

-- What `NewSearchEventValidator` wraps, by the step that failed.
pub data SchemaError (E : Type 0) : Type 0 where
  resolve_schema_path compile_schema : E → SchemaError E

-- `NewSearchEventValidator`, over `filepath.Abs` and the compiler of schemas: the validator's calls
-- of the libraries, with those of the compiled schema.
unfoldable pub new_search_event_validator :
    {J E : Type 0}
    → (Str → E ⊎ Str)
    → (Str → E ⊎ (J → Option Cause))
    → Json J
    → Str
    → SchemaError E ⊎ Json J
new_search_event_validator abs compile json schema_path = elim (abs schema_path) [
  | inl err ↦ inl (resolve_schema_path err)
  | inr abs_path ↦ elim (compile abs_path) [
    | inl err ↦ inl (compile_schema err)
    | inr schema ↦ inr (record json { validate = schema })
  ]
]

module _ {J : Type 0} (json : Json J) where
  -- The stages of `ValidateAndMap`, each the rest of the method from there on.
  unfoldable pub map_payload : List ℕ → ErrorValue ⊎ SearchEvent
  map_payload payload = elim (json.unmarshal_payload payload) [
    | inl err ↦ inl (reject RejectReason.mapping_failed err)
    | inr input ↦ inr (event_of input)
  ]

  unfoldable pub validate_instance : List ℕ → J → ErrorValue ⊎ SearchEvent
  unfolding map_payload
  validate_instance payload instance_value = elim (json.validate instance_value) [
    | some err ↦ inl (reject RejectReason.schema_validation_failed err)
    | none ↦ map_payload payload
  ]

  unfoldable pub validate_and_map : List ℕ → ErrorValue ⊎ SearchEvent
  unfolding validate_instance
  validate_and_map payload =
      if is_empty payload
      then inl (reject RejectReason.invalid_json (Cause.other_cause (runes "payload is empty")))
      else elim (json.unmarshal payload) [
        | inl err ↦ inl (reject RejectReason.invalid_json err)
        | inr value ↦ validate_instance payload value
      ]
