-- ===== src/Http/Ports.antt =====
-- router.go: the API and its ports, and the defaults of `NewRouter`.
use wb_trial_task.Common.{Bool, Option, List, Str, runes, is_empty, ℤ, if◌then◌else◌, ◌⊎◌}
use wb_trial_task.Domain.{TopSnapshot}

-- The errors of internal/domain/errors.go that the handlers ask for by `errors.Is`.
pub data DomainError : Type 0 where
  err_invalid_argument err_already_exists err_not_found : DomainError

-- `TopQuery`, `StopListCommands` and `APIMetrics`, on the state behind them.
pub record TopQuery (S E : Type 0) : Type 0 where
  pub get_top : ℤ → S → (E ⊎ TopSnapshot) × S

pub record StopListCommands (S E : Type 0) : Type 0 where
  pub list : S → (E ⊎ (List Str × ℤ)) × S
  pub add : Str → S → (ℤ × Option E) × S
  pub remove : Str → S → (ℤ × Option E) × S
  pub errors_is : E → DomainError → Bool

pub record ApiMetrics (S : Type 0) : Type 0 where
  pub render_prometheus : S → Str
  pub set_snapshot_age_ms : ℤ → S → S
  pub inc_top_read : S → S
  pub observe_top_read_latency_ms : ℤ → S → S

-- The API; a port that is nil is none.
pub record Api (S E : Type 0) : Type 0 where
  pub top : Option (TopQuery S E)
  pub stop : Option (StopListCommands S E)
  pub admin_token : Str
  pub service_version : Str
  pub open_api_spec_path : Str
  pub kafka_connected : Bool
  pub metrics : Option (ApiMetrics S)

pub record Config (S : Type 0) : Type 0 where
  pub admin_token : Str
  pub service_version : Str
  pub kafka_connected : Bool
  pub metrics : Option (ApiMetrics S)
  pub open_api_spec_path : Str

abbrev string_or : Str → Str → Str
string_or default s = if is_empty s then default else s

unfoldable pub new_router :
    {S E : Type 0} → Option (TopQuery S E) → Option (StopListCommands S E) → Config S → Api S E
new_router top stop cfg = record {
  top = top;
  stop = stop;
  admin_token = cfg.admin_token;
  service_version = string_or (runes "1.0.0") cfg.service_version;
  open_api_spec_path =
      string_or (runes "docs/contracts/api.v1.openapi.yaml") cfg.open_api_spec_path;
  kafka_connected = cfg.kafka_connected;
  metrics = cfg.metrics;
}
