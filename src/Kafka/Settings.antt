-- ===== src/Kafka/Settings.antt =====
-- The consumer's configuration, with the defaults of `normalizeConfig`, and the backoff.
use wb_trial_task.Common.{
  add_int64, ℕ, zero, suc, ◌*◌, Bool, ◌&&◌, List, [], ◌∷◌, if◌then◌else◌, Str, runes, is_empty, ℤ,
  pos, leb_ℤ, ltb_ℤ, Option, none, some,
}
use wb_trial_task.Clock.{Duration, millisecond, second}

pub record Config : Type 0 where
  pub enabled : Bool
  pub brokers : List Str
  pub topic : Str
  pub group_id : Str
  pub min_bytes : ℤ
  pub max_bytes : ℤ
  pub max_wait : Duration
  pub start_offset : ℤ
  pub max_processing_retries : ℤ
  pub retry_backoff : Duration
  pub retry_backoff_max : Duration
  pub commit_retries : ℤ
  pub commit_retry_backoff : Duration

abbrev positive_or : ℤ → ℤ → ℤ
positive_or fallback x = if leb_ℤ x (pos 0) then fallback else x

abbrev text_or : Str → Str → Str
text_or fallback s = if is_empty s then fallback else s

abbrev at_least_zero : ℤ → ℤ
at_least_zero x = if ltb_ℤ x (pos 0) then pos 0 else x

-- `if x > bound { x = bound }`
abbrev at_most : ℤ → ℤ → ℤ
at_most bound x = if ltb_ℤ bound x then bound else x

-- `if x < bound { x = bound }`
abbrev at_least : ℤ → ℤ → ℤ
at_least bound x = if ltb_ℤ x bound then bound else x

abbrev is_zero : ℤ → Bool
is_zero x = leb_ℤ x (pos 0) && leb_ℤ (pos 0) x

-- `normalizeConfig`; `first_offset` is the library's `kafkago.FirstOffset`.
unfoldable pub normalize_config : ℤ → Config → Config
normalize_config first_offset c = record c {
  brokers = if is_empty c.brokers then runes "localhost:9092" ∷ [] else c.brokers;
  topic = text_or (runes "search.events.v1") c.topic;
  group_id = text_or (runes "trends-service-v1") c.group_id;
  min_bytes = positive_or (pos 1024) c.min_bytes;
  max_bytes =
      at_least (positive_or (pos 1024) c.min_bytes) (positive_or (pos 10485760) c.max_bytes);
  max_wait = positive_or (pos (500 * millisecond)) c.max_wait;
  start_offset = if is_zero c.start_offset then first_offset else c.start_offset;
  max_processing_retries = at_least_zero c.max_processing_retries;
  retry_backoff =
      at_most (positive_or (pos (3 * second)) c.retry_backoff_max)
        (positive_or (pos (100 * millisecond)) c.retry_backoff);
  retry_backoff_max = positive_or (pos (3 * second)) c.retry_backoff_max;
  commit_retries = at_least_zero c.commit_retries;
  commit_retry_backoff = positive_or (pos (100 * millisecond)) c.commit_retry_backoff;
}

-- `kafkago.ReaderConfig`, by the fields that are set
pub record ReaderConfig : Type 0 where
  pub brokers : List Str
  pub topic : Str
  pub group_id : Str
  pub min_bytes : ℤ
  pub max_bytes : ℤ
  pub max_wait : Duration
  pub commit_interval : Duration
  pub start_offset : ℤ

-- `Consumer`; a reader that is nil is none
pub record ConsumerState (R : Type 0) : Type 0 where
  pub cfg : Config
  pub reader : Option R

-- `NewConsumer`, over the library's `NewReader`
unfoldable pub new_consumer : {R : Type 0} → ℤ → (ReaderConfig → R) → Config → ConsumerState R
unfolding normalize_config
new_consumer first_offset new_reader cfg =
    let normalized = normalize_config first_offset cfg in
    record {
      cfg = normalized;
      reader =
          if normalized.enabled
          then some (
              new_reader (record {
                brokers = normalized.brokers;
                topic = normalized.topic;
                group_id = normalized.group_id;
                min_bytes = normalized.min_bytes;
                max_bytes = normalized.max_bytes;
                max_wait = normalized.max_wait;
                commit_interval = pos 0;
                start_offset = normalized.start_offset;
              }))
          else none;
    }

-- `delay *= 2`, which wraps around
unfoldable pub double : Duration → Duration
double delay = add_int64 delay delay

-- The loop of `backoff`, for the rounds that are left.
unfoldable pub double_up_to : ℕ → Duration → Duration → Duration
double_up_to zero delay max = delay
double_up_to (suc rounds) delay max =
    let rest = double_up_to rounds (double delay) max in
    if ltb_ℤ (pos 0) max && leb_ℤ max (double delay) then max else rest

-- `backoff`; the attempts count from 0
unfoldable pub backoff : ℕ → Duration → Duration → Duration
backoff attempt base max = if leb_ℤ base (pos 0) then pos 0 else elim attempt [
  | zero ↦ if ltb_ℤ (pos 0) max && ltb_ℤ max base then max else base
  | suc rounds ↦ double_up_to (suc rounds) base max
]
