-- ===== src/Tests/Data.antt =====
-- The data of the tests: the ASCII part of the Unicode tables, an engine, events and calls.
use wb_trial_task.Common.{
  ℕ, ◌+◌, ◌*◌, refl, true, false, ◌&&◌, ◌||◌, none, some, [], ◌∷◌, arith, leb, if◌then◌else◌, Str,
  Str-discrete, runes, pos,
}
use wb_trial_task.Common.Dict.{lookup}
use wb_trial_task.Clock.{second}
use wb_trial_task.Domain.{SearchEvent}
use wb_trial_task.Normalizer.{Unicode, IsUnicode, is_space}
use wb_trial_task.Window.{Engine}
use wb_trial_task.Window.Invariant.{IsValid}
use wb_trial_task.Window.Replay.{AddCall}
use wb_trial_task.AntiFraud.{Config, Evaluator, new_fail_closed_evaluator}
use wb_trial_task.AntiFraud.Calls.{Call}

abbrev pub ascii : Unicode
ascii = record {
  to_lower = λ c. if leb 65 c && leb c 90 then c + 32 else c;
  is_letter = λ c. (leb 97 c && leb c 122) || (leb 65 c && leb c 90);
  is_number = λ c. leb 48 c && leb c 57;
}

pub ascii-IsUnicode : IsUnicode ascii
unfolding is_space
ascii-IsUnicode = record {
  space_not_word = λ c h. ground arith;
  bar_not_word = refl;
  to_lower-space = refl;
  to_lower_idem = λ c. ground arith;
}

abbrev pub phone : Str
phone = runes "phone"

abbrev pub case : Str
case = runes "case"

-- An engine of three seconds that has counted `phone` twice and `case` once.
abbrev pub busy_engine : Engine
busy_engine = record {
  window_seconds = 3;
  buckets =
      record { epoch_second = 12; counts = (phone, 1) ∷ (case, 1) ∷ [] }
      ∷ record { epoch_second = 13; counts = (phone, 1) ∷ [] }
      ∷ record { epoch_second = 0; counts = [] }
      ∷ [];
  totals = (phone, 2) ∷ (case, 1) ∷ [];
  cached = record { generated_at_ms = 0; items = [] };
  dirty = true;
  last_rebuild_at = none;
  rebuild_interval = 250000000;
}

pub busy_engine-IsValid : IsValid busy_engine
unfolding lookup Str-discrete
busy_engine-IsValid = record {
  window_pos = omega arith;
  ring = refl;
  tallies = (
    record { distinct = (refl, (refl, tt)); positive = (omega arith, (omega arith, tt)) },
    (
      record { distinct = (refl, tt); positive = (omega arith, tt) },
      (record { distinct = tt; positive = tt }, tt),
    ),
  );
  totals_tally = record {
    distinct = (refl, (refl, tt));
    positive = (omega arith, (omega arith, tt));
  };
  balanced = λ q. ground arith;
  fresh = λ h. cc;
}

abbrev pub add_call : Str → ℕ → AddCall
add_call q sec = record { query = q; score = 1; ingested_at_ms = pos (sec * 1000); now = 0 }

abbrev pub event : Str → Str → Str → Str → SearchEvent
event id query ip session = record {
  schema_version = pos 1;
  event_type = runes "search";
  event_id = id;
  ingested_at_ms = pos 12000;
  event_time_ms = pos 12000;
  query_raw = query;
  source = runes "search_bar";
  platform = runes "web";
  app_version = runes "1.0";
  ip_hash = ip;
  session_id_hash = session;
  auth_state = runes "anonymous";
  user_id_hash = none;
  is_test_traffic = false;
  is_replay = false;
  producer_region = runes "eu";
  normalizer_version = runes "1";
}

-- An evaluator that lets an ip send two requests in a minute.
abbrev pub strict_config : Config
strict_config = record {
  max_requests_per_minute_per_ip = pos 2;
  ip_block_duration = pos (100 * second);
  contribution_window = pos (100 * second);
  max_unique_queries_per_session = pos 2;
  session_entropy_window = pos (100 * second);
  session_block_duration = pos (100 * second);
}

abbrev pub strict_evaluator : Evaluator
strict_evaluator = new_fail_closed_evaluator strict_config

-- A call by an ip in a session, at a second.
abbrev pub call_at : ℕ → Str → Str → Str → Call
call_at sec ip session query = record {
  event = event (runes "id") query ip session;
  query = query;
  now = some (sec * second);
  clock = 0;
}
