-- ===== src/AntiFraud/State.antt =====
-- The evaluator's configuration, state and upkeep: rules.go up to `Evaluate`, and the helpers
-- below it.
use wb_trial_task.Common.{
  ℕ, ◌+◌, ◌-◌, ◌*◌, Bool, true, false, ◌&&◌, Option, none, some, List, [], ◌∷◌, ◌++◌, ltb, leb,
  if◌then◌else◌, Str, runes, is_empty, ℤ, pos, leb_ℤ, ltb_ℤ,
}
use wb_trial_task.Common.Dict.{Dict, get, insert, erase, retain}
use wb_trial_task.Clock.{Time, Duration, sub_duration, minute, hour}
use wb_trial_task.Domain.{SearchEvent}

pub record Config : Type 0 where
  pub max_requests_per_minute_per_ip : ℤ
  pub ip_block_duration : Duration
  pub contribution_window : Duration
  pub max_unique_queries_per_session : ℤ
  pub session_entropy_window : Duration
  pub session_block_duration : Duration

pub record SessionEvent : Type 0 where
  pub at : Time
  pub query : Str

pub record SessionEntropyState : Type 0 where
  pub events : List SessionEvent
  pub counts : Dict ℕ
  pub last_seen : Option Time

pub record Evaluator : Type 0 where
  pub cfg : Config
  pub counters : Dict ℕ
  pub bucket_min : ℕ
  pub last_cleanup_at : Option Time
  pub ip_blocked_until : Dict Time
  pub session_blocked_until : Dict Time
  pub contribution_seen : Dict Time
  pub session_entropy : Dict SessionEntropyState

abbrev pub cleanup_interval : ℕ
cleanup_interval = minute

-- `if x <= 0 { x = fallback }`
abbrev pub or_default : ℤ → ℤ → ℤ
or_default fallback x = if leb_ℤ x (pos 0) then fallback else x

abbrev pub with_defaults : Config → Config
with_defaults c = record {
  max_requests_per_minute_per_ip = or_default (pos 1000) c.max_requests_per_minute_per_ip;
  ip_block_duration = or_default (pos hour) c.ip_block_duration;
  contribution_window = or_default (pos hour) c.contribution_window;
  max_unique_queries_per_session = or_default (pos 100) c.max_unique_queries_per_session;
  session_entropy_window = or_default (pos (5 * minute)) c.session_entropy_window;
  session_block_duration = or_default (pos hour) c.session_block_duration;
}

unfoldable pub new_fail_closed_evaluator : Config → Evaluator
new_fail_closed_evaluator c = record {
  cfg = with_defaults c;
  counters = [];
  bucket_min = 0;
  last_cleanup_at = none;
  ip_blocked_until = [];
  session_blocked_until = [];
  contribution_seen = [];
  session_entropy = [];
}

-- `validateConfigLocked`: the first field that is not positive
unfoldable pub validate_config : Config → Option Str
validate_config c =
    if leb_ℤ c.max_requests_per_minute_per_ip (pos 0)
    then some (runes "MaxRequestsPerMinutePerIP")
    else if leb_ℤ c.ip_block_duration (pos 0)
    then some (runes "IPBlockDuration")
    else if leb_ℤ c.contribution_window (pos 0)
    then some (runes "ContributionWindow")
    else if leb_ℤ c.max_unique_queries_per_session (pos 0)
    then some (runes "MaxUniqueQueriesPerSession")
    else if leb_ℤ c.session_entropy_window (pos 0)
    then some (runes "SessionEntropyWindow")
    else if leb_ℤ c.session_block_duration (pos 0)
    then some (runes "SessionBlockDuration")
    else none

-- One event leaves `counts`: the body of the loop of `pruneSessionState`.
abbrev pub uncount : Str → Dict ℕ → Dict ℕ
uncount query counts =
    if leb (get query counts) 1
    then erase query counts
    else insert query (get query counts - 1) counts

-- The loop of `pruneSessionState`: the events that stay, and the counts without the others.
unfoldable pub prune_events : Time → List SessionEvent → Dict ℕ → List SessionEvent × Dict ℕ
prune_events cutoff [] counts = ([], counts)
prune_events cutoff (evt ∷ events) counts = elim (ltb evt.at cutoff) [
  | true ↦ prune_events cutoff events (uncount evt.query counts)
  | false ↦ (evt ∷ events, counts)
]

unfoldable pub prune_session_state : Time → SessionEntropyState → SessionEntropyState
unfolding prune_events
prune_session_state cutoff s =
    let (events, counts) = prune_events cutoff s.events s.counts in
    record s { events = events; counts = counts }

-- `now.Sub(lastSeen) > window`; `lastSeen` is set before a state is stored
abbrev pub idle_longer : Time → Option Time → Duration → Bool
idle_longer now none window = true
idle_longer now (some last) window = ltb_ℤ window (pos (now - last))

-- The loop over the sessions in `cleanupLocked`.
unfoldable pub clean_sessions :
    Time → Duration → Dict SessionEntropyState → Dict SessionEntropyState
unfolding prune_session_state
clean_sessions now window [] = []
clean_sessions now window ((key, s) ∷ sessions) =
    let s' = prune_session_state (sub_duration now window) s in
    if is_empty s'.counts && idle_longer now s'.last_seen window
    then clean_sessions now window sessions
    else (key, s') ∷ clean_sessions now window sessions

-- `!lastCleanupAt.IsZero() && now.Sub(lastCleanupAt) < cleanupInterval`
abbrev pub cleaned_recently : Time → Option Time → Bool
cleaned_recently now none = false
cleaned_recently now (some last) = ltb now (last + cleanup_interval)

-- `cleanupLocked`
unfoldable pub cleanup : Time → Evaluator → Evaluator
unfolding clean_sessions
cleanup now e = if cleaned_recently now e.last_cleanup_at then e else record e {
  last_cleanup_at = some now;
  ip_blocked_until = retain (λ until. ltb now until) e.ip_blocked_until;
  session_blocked_until = retain (λ until. ltb now until) e.session_blocked_until;
  contribution_seen = retain (λ exp. ltb now exp) e.contribution_seen;
  session_entropy = clean_sessions now e.cfg.session_entropy_window e.session_entropy;
}

-- `"user:" + *evt.UserIDHash`, for a user id that is there and not empty
abbrev pub user_keys : Option Str → List Str
user_keys none = []
user_keys (some id) = if is_empty id then [] else (runes "user:" ++ id) ∷ []

unfoldable pub identity_keys : SearchEvent → List Str
identity_keys evt =
    (runes "ip:" ++ evt.ip_hash)
    ∷ (runes "session:" ++ evt.session_id_hash)
    ∷ user_keys evt.user_id_hash

unfoldable pub contribution_key : Str → Str → Str
contribution_key identity query = identity ++ runes "|" ++ query
