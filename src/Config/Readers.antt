-- ===== src/Config/Readers.antt =====
-- The readers of one environment variable. An environment gives the text of every variable, empty
-- where it is not set, as `os.Getenv` does.
use wb_trial_task.Common.{
  ℕ, Bool, true, false, ◌||◌, Option, none, some, List, [], ◌∷◌, ite, Str, Str-discrete, runes,
  is_empty, ℤ, ◌==◌, if◌then◌else◌,
}
use wb_trial_task.Common.Decimal.{atoi}
use wb_trial_task.Clock.{Duration}
use wb_trial_task.Normalizer.{trim_space}

abbrev pub Env : Type 0
Env = Str → Str

abbrev is_text : Str → Str → Bool
is_text s t = ite (Str-discrete s t) true false

-- `strconv.ParseBool`
unfoldable pub parse_bool : Str → Option Bool
parse_bool s =
    if is_text s (runes "1")
      || is_text s (runes "t")
      || is_text s (runes "T")
      || is_text s (runes "TRUE")
      || is_text s (runes "true")
      || is_text s (runes "True")
    then some true
    else if is_text s (runes "0")
        || is_text s (runes "f")
        || is_text s (runes "F")
        || is_text s (runes "FALSE")
        || is_text s (runes "false")
        || is_text s (runes "False")
    then some false
    else none

-- `strings.Split(s, ",")`: the parts between the commas, of which there is at least one.
abbrev with_head : ℕ → List Str → List Str
with_head c [] = (c ∷ []) ∷ []
with_head c (part ∷ parts) = (c ∷ part) ∷ parts

unfoldable pub split_commas : Str → List Str
split_commas [] = [] ∷ []
split_commas (c ∷ s) =
    let parts = split_commas s in if c == b',' then [] ∷ parts else with_head c parts

-- the loop of `getEnvCSV`
unfoldable pub trimmed_parts : List Str → List Str
unfolding trim_space
trimmed_parts [] = []
trimmed_parts (part ∷ parts) =
    if is_empty (trim_space part)
    then trimmed_parts parts
    else trim_space part ∷ trimmed_parts parts

abbrev or_else {ℓ} : {A : Type ℓ} → A → Option A → A
or_else fallback none = fallback
or_else fallback (some v) = v

module _ (env : Env) where
  unfoldable pub get_env_string : Str → Str → Str
  get_env_string key fallback =
      let raw = trim_space (env key) in if is_empty raw then fallback else raw

  -- The readers that parse the trimmed text of a variable, and take the fallback where the text is
  -- empty or does not parse.
  unfoldable pub get_env {ℓ} : {A : Type ℓ} → (Str → Option A) → Str → A → A
  get_env parse key fallback =
      let raw = trim_space (env key) in
      if is_empty raw then fallback else or_else fallback (parse raw)

  unfoldable pub get_env_bool : Str → Bool → Bool
  unfolding parse_bool get_env
  get_env_bool = get_env parse_bool

  unfoldable pub get_env_int : Str → ℤ → ℤ
  unfolding get_env
  get_env_int = get_env atoi

  -- `ParseInt` of base 10 and 64 bits is `Atoi`.
  unfoldable pub get_env_int64 : Str → ℤ → ℤ
  unfolding get_env
  get_env_int64 = get_env atoi

  -- `time.ParseDuration` is an argument: it computes with `float64`.
  unfoldable pub get_env_duration : (Str → Option Duration) → Str → Duration → Duration
  unfolding get_env
  get_env_duration parse_duration = get_env parse_duration

  unfoldable pub get_env_csv : Str → List Str → List Str
  unfolding split_commas trimmed_parts
  get_env_csv key fallback =
      let raw = trim_space (env key) in
      if is_empty raw
      then fallback
      else let out = trimmed_parts (split_commas raw) in if is_empty out then fallback else out
