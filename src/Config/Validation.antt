-- ===== src/Config/Validation.antt =====
-- `Validate` after `FromEnv`.
use wb_trial_task.Common.{◌≡◌, ◌↔◌, false, Option, none, Str, arith, runes, is_empty}
use wb_trial_task.Clock.{Duration}
use wb_trial_task.Normalizer.{trim_space}
use wb_trial_task.Normalizer.Trim.{trim_space_idem}
use wb_trial_task.Config.Readers.{Env, get_env_string}
use wb_trial_task.Config.Settings.{from_env, validate}

-- The variable is set, and not to white space alone.
abbrev pub IsGiven : Env → Str → Type 0
IsGiven env key = is_empty (trim_space (env key)) ≡ false

-- The settings of an environment pass `Validate` exactly if the admin token and the address of the
-- stop-list's database are set.
pub validate-from_env :
    (parse_duration : Str → Option Duration) (env : Env)
    → (validate (from_env parse_duration env) ≡ none) ↔ (
        IsGiven env (runes "HTTP_ADMIN_TOKEN")
        × IsGiven env (runes "STORAGE_STOPLIST_POSTGRES_DSN"))
unfolding validate from_env get_env_string
validate-from_env parse_duration env = ground (
  arith,
  trim_space_idem (env (runes "HTTP_ADMIN_TOKEN")),
  trim_space_idem (env (runes "STORAGE_STOPLIST_POSTGRES_DSN")),
)
