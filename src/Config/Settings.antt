-- ===== src/Config/Settings.antt =====
-- `Config`, `FromEnv` and `Validate`. The groups for Kafka and for the anti-fraud rules have the
-- fields of the configurations that main.go fills from them, and are those records here.
use wb_trial_task.Common.{
  true, Option, none, some, List, [], ◌∷◌, ◌++◌, Str, runes, is_empty, ℤ, pos, negsuc, ◌*◌,
  if◌then◌else◌,
}
use wb_trial_task.Clock.{Duration, millisecond, second, minute, hour}
use wb_trial_task.Normalizer.{trim_space}
use wb_trial_task.AntiFraud
use wb_trial_task.Kafka
use wb_trial_task.Config.Readers.{
  Env, get_env_string, get_env_bool, get_env_int, get_env_int64, get_env_duration, get_env_csv,
}

pub record HttpSettings : Type 0 where
  pub address : Str
  pub admin_token : Str
  pub service_version : Str

pub record Config : Type 0 where
  pub http : HttpSettings
  pub stop_list_postgres_dsn : Str
  pub kafka : Kafka.Config
  pub search_event_schema_path : Str
  pub window_seconds : ℤ
  pub dedup_ttl : Duration
  pub anti_fraud : AntiFraud.Config

module _ (parse_duration : Str → Option Duration) (env : Env) where
  unfoldable pub kafka_from_env : Kafka.Config
  kafka_from_env = record {
    enabled = get_env_bool env (runes "KAFKA_ENABLED") true;
    brokers = get_env_csv env (runes "KAFKA_BROKERS") (runes "localhost:9092" ∷ []);
    topic = get_env_string env (runes "KAFKA_TOPIC") (runes "search.events.v1");
    group_id = get_env_string env (runes "KAFKA_GROUP_ID") (runes "trends-service-v1");
    min_bytes = get_env_int env (runes "KAFKA_MIN_BYTES") (pos 1024);
    max_bytes = get_env_int env (runes "KAFKA_MAX_BYTES") (pos 10485760);
    max_wait =
        get_env_duration env parse_duration (runes "KAFKA_MAX_WAIT") (pos (500 * millisecond));
    start_offset = get_env_int64 env (runes "KAFKA_START_OFFSET") (negsuc 1);
    max_processing_retries = get_env_int env (runes "KAFKA_MAX_PROCESSING_RETRIES") (pos 3);
    retry_backoff =
        get_env_duration env parse_duration (runes "KAFKA_RETRY_BACKOFF") (pos (100 * millisecond));
    retry_backoff_max =
        get_env_duration env parse_duration (runes "KAFKA_RETRY_BACKOFF_MAX") (pos (3 * second));
    commit_retries = get_env_int env (runes "KAFKA_COMMIT_RETRIES") (pos 3);
    commit_retry_backoff =
        get_env_duration env parse_duration (runes "KAFKA_COMMIT_RETRY_BACKOFF")
          (pos (100 * millisecond));
  }

  unfoldable pub anti_fraud_from_env : AntiFraud.Config
  anti_fraud_from_env = record {
    max_requests_per_minute_per_ip =
        get_env_int env (runes "ANTI_FRAUD_MAX_REQUESTS_PER_MINUTE_PER_IP") (pos 1000);
    ip_block_duration =
        get_env_duration env parse_duration (runes "ANTI_FRAUD_IP_BLOCK_DURATION") (pos hour);
    contribution_window =
        get_env_duration env parse_duration (runes "ANTI_FRAUD_CONTRIBUTION_WINDOW") (pos hour);
    max_unique_queries_per_session =
        get_env_int env (runes "ANTI_FRAUD_MAX_UNIQUE_QUERIES_PER_SESSION") (pos 100);
    session_entropy_window =
        get_env_duration env parse_duration (runes "ANTI_FRAUD_SESSION_ENTROPY_WINDOW")
          (pos (5 * minute));
    session_block_duration =
        get_env_duration env parse_duration (runes "ANTI_FRAUD_SESSION_BLOCK_DURATION") (pos hour);
  }

  unfoldable pub from_env : Config
  unfolding kafka_from_env anti_fraud_from_env
  from_env = record {
    http = record {
      address = get_env_string env (runes "HTTP_ADDRESS") (runes ":8080");
      admin_token = get_env_string env (runes "HTTP_ADMIN_TOKEN") [];
      service_version = get_env_string env (runes "HTTP_SERVICE_VERSION") (runes "1.0.0");
    };
    stop_list_postgres_dsn = get_env_string env (runes "STORAGE_STOPLIST_POSTGRES_DSN") [];
    kafka = kafka_from_env;
    search_event_schema_path =
        get_env_string env (runes "CONTRACT_SEARCH_EVENT_SCHEMA_PATH")
          (runes "docs/schemas/search_event.v1.schema.json");
    window_seconds = get_env_int env (runes "TOP_WINDOW_SECONDS") (pos 300);
    dedup_ttl = get_env_duration env parse_duration (runes "INGEST_DEDUP_TTL") (pos (10 * minute));
    anti_fraud = anti_fraud_from_env;
  }

-- `append(missing, name)` where the setting is blank
abbrev missing_if_blank : Str → Str → List Str
missing_if_blank name value = if is_empty (trim_space value) then name ∷ [] else []

-- `Validate`: none is nil, and the error lists the variables that are missing
unfoldable pub validate : Config → Option (List Str)
validate cfg =
    let missing =
      missing_if_blank (runes "HTTP_ADMIN_TOKEN") cfg.http.admin_token
      ++ missing_if_blank (runes "STORAGE_STOPLIST_POSTGRES_DSN") cfg.stop_list_postgres_dsn in
    if is_empty missing then none else some missing
