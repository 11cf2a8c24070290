-- ===== src/Config/Wiring.antt =====
-- cmd/trends-service/main.go: what main makes of the settings, whatever the environment holds.
use wb_trial_task.Common.{
  ◌≡◌, true, Option, none, List, Str, arith, ℤ, pos, leb_ℤ, ltb_ℤ, is_empty, false,
}
use wb_trial_task.Clock.{Duration}
use wb_trial_task.Window.Invariant.{IsValid, new_engine-IsValid}
use wb_trial_task.Dedup.{new_store}
use wb_trial_task.Normalizer.{Unicode}
use wb_trial_task.AntiFraud.{validate_config, new_fail_closed_evaluator}
use wb_trial_task.Kafka
use wb_trial_task.Kafka.{normalize_config}
use wb_trial_task.Ingest.System.{System, new_system}
use wb_trial_task.Config.Readers.{Env}
use wb_trial_task.Config.Settings.{Config, from_env}

-- The ingest path that main builds from the settings and the words that the store lists.
abbrev pub main_system : Unicode → List Str → Config → System
main_system u initial_stop_words cfg =
    new_system u initial_stop_words cfg.dedup_ttl cfg.anti_fraud cfg.window_seconds

-- The configuration of the consumer that main builds.
abbrev pub main_consumer : ℤ → Config → Kafka.Config
main_consumer first_offset cfg = normalize_config first_offset cfg.kafka

-- A consumer's configuration in range.
pub record IsUsable (c : Kafka.Config) : Type 0 where
  pub brokers : is_empty c.brokers ≡ false
  pub topic : is_empty c.topic ≡ false
  pub group_id : is_empty c.group_id ≡ false
  pub min_bytes : ltb_ℤ (pos 0) c.min_bytes ≡ true
  pub max_bytes : leb_ℤ c.min_bytes c.max_bytes ≡ true
  pub max_wait : ltb_ℤ (pos 0) c.max_wait ≡ true
  pub retries : leb_ℤ (pos 0) c.max_processing_retries ≡ true
  pub backoff : ltb_ℤ (pos 0) c.retry_backoff ≡ true
  pub backoff_max : leb_ℤ c.retry_backoff c.retry_backoff_max ≡ true
  pub commit_retries : leb_ℤ (pos 0) c.commit_retries ≡ true
  pub commit_backoff : ltb_ℤ (pos 0) c.commit_retry_backoff ≡ true

pub normalize_config-IsUsable :
    (first_offset : ℤ) (c : Kafka.Config) → IsUsable (normalize_config first_offset c)
unfolding normalize_config
normalize_config-IsUsable first_offset c = record {
  brokers = ground arith;
  topic = ground arith;
  group_id = ground arith;
  min_bytes = ground arith;
  max_bytes = ground arith;
  max_wait = ground arith;
  retries = ground arith;
  backoff = ground arith;
  backoff_max = ground arith;
  commit_retries = ground arith;
  commit_backoff = ground arith;
}

-- Whatever the environment holds, the service starts with a valid engine, an anti-fraud
-- configuration that `Evaluate` accepts, a positive time to live for event ids, and a consumer's
-- configuration in range.
pub main-starts_ready :
    (u : Unicode) (parse_duration : Str → Option Duration) (env : Env) (words : List Str)
    (first_offset : ℤ)
    → let cfg = from_env parse_duration env in
      IsValid (main_system u words cfg).engine
      × (validate_config (main_system u words cfg).fraud.cfg ≡ none)
      × (ltb_ℤ (pos 0) (main_system u words cfg).dedup.ttl ≡ true)
      × IsUsable (main_consumer first_offset cfg)
unfolding new_system new_fail_closed_evaluator validate_config new_store
main-starts_ready u parse_duration env words first_offset =
    let cfg = from_env parse_duration env in
    (
      new_engine-IsValid cfg.window_seconds,
      ground arith,
      ground arith,
      normalize_config-IsUsable first_offset cfg.kafka,
    )
