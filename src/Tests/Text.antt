-- ===== src/Tests/Text.antt =====
-- The normalizer, the keys and settings made of text, and the deduplicator on small inputs.
use wb_trial_task.Common.{
  ◌≡◌, refl, true, none, some, List, [], ◌∷◌, arith, Str, Str-discrete, runes, ltb, length,
  if◌then◌else◌, pos,
}
use wb_trial_task.Common.Dict.{lookup, insert, retain}
use wb_trial_task.Normalizer.{
  Service, normalize, is_blocked, drop_blocked, replace_stop_words, clean_text, replace_runs,
  trim_space, trim_left, trim_right, fields, words, runs, join, is_space, matches_space,
}
use wb_trial_task.Normalizer.Reference.{tokens, normalize-reference}
use wb_trial_task.Normalizer.Output.{IsNormal, normalize-IsNormal, normalize_idem}
use wb_trial_task.Config.{get_env_csv}
use wb_trial_task.Config.Lists.{get_env_csv-join_commas}
use wb_trial_task.AntiFraud.Keys.{contribution_key_injective}
use wb_trial_task.Normalizer.StopWords.{IsListed, is_blocked-replace_stop_words}
use wb_trial_task.Dedup.{new_store, seen_or_add, cleanup, look_up_or_add}
use wb_trial_task.Dedup.History.{
  Request, Requested, run_requests, record_requests, seen_or_add-remembers, seen_or_add_sound,
}
use wb_trial_task.Tests.Data.{ascii, ascii-IsUnicode}

abbrev service : Service
service = record { stop_words = (runes "the", tt) ∷ [] }

abbrev typed : Str
typed = runes "  The  RED, phone! "

abbrev red_phone : Str
red_phone = runes "red phone"

normalize_test : normalize ascii service typed ≡ some red_phone
unfolding normalize clean_text replace_runs trim_space trim_left trim_right fields words runs join
    is_space matches_space drop_blocked is_blocked lookup Str-discrete
normalize_test = refl

normalize-reference_example : normalize ascii service typed ≡ (
    let q = join (drop_blocked service.stop_words (tokens ascii ascii-IsUnicode typed)) in
    if ltb (length q) 2 then none else some q)
normalize-reference_example = normalize-reference ascii ascii-IsUnicode service typed

normalize-IsNormal_example : IsNormal ascii service.stop_words red_phone
normalize-IsNormal_example =
    normalize-IsNormal ascii ascii-IsUnicode service typed red_phone normalize_test

normalize_idem_example : normalize ascii service red_phone ≡ some red_phone
normalize_idem_example = normalize_idem ascii ascii-IsUnicode service typed red_phone normalize_test

-- A variable with two addresses.
get_env_csv-join_commas_example :
    get_env_csv (λ key. runes "a:1,b") (runes "KAFKA_BROKERS") [] ≡ runes "a:1" ∷ runes "b" ∷ []
unfolding is_space
get_env_csv-join_commas_example =
    get_env_csv-join_commas (λ key. runes "a:1,b") (runes "KAFKA_BROKERS") [] (runes "a:1")
      (runes "b" ∷ [])
      ((refl, ((refl, refl), ((refl, refl), ((refl, refl), tt)))), ((refl, ((refl, refl), tt)), tt))
      refl

contribution_key_injective_example : (runes "ip:1" ≡ runes "ip:1") × (red_phone ≡ red_phone)
contribution_key_injective_example =
    contribution_key_injective ascii ascii-IsUnicode service service typed typed red_phone red_phone
      (runes "ip:1") (runes "ip:1") normalize_test normalize_test refl

is_blocked-replace_stop_words_example :
    (is_blocked (replace_stop_words ascii (runes " Red" ∷ []) service).stop_words (runes "red")
        ≡ true
      → IsListed ascii (runes "red") (runes " Red" ∷ []))
    × (IsListed ascii (runes "red") (runes " Red" ∷ [])
        → is_blocked (replace_stop_words ascii (runes " Red" ∷ []) service).stop_words (runes "red")
          ≡ true)
is_blocked-replace_stop_words_example =
    is_blocked-replace_stop_words ascii (runes "red") (runes " Red" ∷ []) service

abbrev id : Str
id = runes "event-1"

-- Another event, within the time to live of the first.
abbrev others : List Request
others = record { key = runes "event-2"; now = 5 } ∷ []

seen_or_add-remembers_example :
    (seen_or_add id 9 (run_requests others (seen_or_add id 3 (new_store (pos 10))).1)).0 ≡ true
unfolding seen_or_add cleanup new_store retain lookup
seen_or_add-remembers_example =
    seen_or_add-remembers id 3 9 others (new_store (pos 10)) refl refl (omega arith, tt)
      (omega arith)

seen_or_add_sound_example :
    Requested
      (new_store (pos 10)).ttl
      id
      9
      (record_requests (record { key = id; now = 3 } ∷ others) [])
unfolding seen_or_add cleanup new_store retain lookup insert look_up_or_add run_requests
    Str-discrete
seen_or_add_sound_example =
    seen_or_add_sound (pos 10) (record { key = id; now = 3 } ∷ others) id 9 refl
