-- ===== src/Normalizer/Text.antt =====
-- The functions of Go's `strings`, `regexp` and `unicode` that the normalizer calls, on runes, and
-- the normalizer itself.
use wb_trial_task.Common.{
  ℕ, ◌≡◌, Bool, true, false, not, ◌&&◌, ◌||◌, Option, none, some, List, [], ◌∷◌, ◌++◌, map, ltb,
  leb, ◌==◌, if◌then◌else◌, Str, is_empty, length,
}
use wb_trial_task.Common.Dict.{Dict, lookup, insert}

-- `unicode.IsSpace`
unfoldable pub is_space : ℕ → Bool
is_space c =
    (leb 9 c && leb c 13)
    || c == 0x20
    || c == 0x85
    || c == 0xa0
    || c == 0x1680
    || (leb 0x2000 c && leb c 0x200a)
    || c == 0x2028
    || c == 0x2029
    || c == 0x202f
    || c == 0x205f
    || c == 0x3000

-- `\s` of a regular expression: ASCII, and without the vertical tab
unfoldable pub matches_space : ℕ → Bool
matches_space c = c == 9 || c == 10 || c == 12 || c == 13 || c == 0x20

-- The tables of Go's `unicode` package: `unicode.ToLower`, `\p{L}` and `\p{N}`.
pub record Unicode : Type 0 where
  pub to_lower : ℕ → ℕ
  pub is_letter : ℕ → Bool
  pub is_number : ℕ → Bool

-- A rune that the normalizer keeps.
abbrev pub is_word : Unicode → ℕ → Bool
is_word u c = u.is_letter c || u.is_number c

-- What the Unicode standard says of the tables: white space and `|` are neither letters nor
-- numbers, the space has no other case, and to lower a rune twice is to lower it once.
pub record IsUnicode (u : Unicode) : Type 0 where
  pub space_not_word : (c : ℕ) → is_space c ≡ true → is_word u c ≡ false
  pub bar_not_word : is_word u b'|' ≡ false
  pub to_lower-space : u.to_lower 0x20 ≡ 0x20
  pub to_lower_idem : (c : ℕ) → u.to_lower (u.to_lower c) ≡ u.to_lower c

-- `strings.TrimSpace`
unfoldable pub trim_left : Str → Str
trim_left [] = []
trim_left (c ∷ s) = if is_space c then trim_left s else c ∷ s

unfoldable pub trim_right : Str → Str
trim_right [] = []
trim_right (c ∷ s) = let rest = trim_right s in if is_empty rest && is_space c then [] else c ∷ rest

unfoldable pub trim_space : Str → Str
unfolding trim_left trim_right
trim_space s = trim_right (trim_left s)

-- `regexp.ReplaceAllString` of a pattern `[…]+` by one rune: every run of runes that match becomes
-- that rune. The flag says that the rune before belongs to such a run.
unfoldable pub replace_runs : (ℕ → Bool) → ℕ → Bool → Str → Str
replace_runs p by in_run [] = []
replace_runs p by in_run (c ∷ s) =
    let rest = replace_runs p by (p c) s in
    if p c then (if in_run then rest else by ∷ rest) else c ∷ rest

-- The first run of runes that are kept, up to the first one that is not, and the runs behind it.
abbrev pub push : Str × List Str → List Str
push ([], ws) = ws
push (c ∷ w, ws) = (c ∷ w) ∷ ws

unfoldable pub runs : (ℕ → Bool) → Str → Str × List Str
runs keep [] = ([], [])
runs keep (c ∷ s) = let r = runs keep s in if keep c then (c ∷ r.0, r.1) else ([], push r)

-- The maximal runs of kept runes.
unfoldable pub words : (ℕ → Bool) → Str → List Str
unfolding runs
words keep s = push (runs keep s)

-- `strings.Fields`
unfoldable pub fields : Str → List Str
unfolding words
fields s = words (λ c. not (is_space c)) s

-- `strings.Join(parts, " ")`
unfoldable pub join : List Str → Str
join [] = []
join (w ∷ []) = w
join (w ∷ v ∷ ws) = w ++ 0x20 ∷ join (v ∷ ws)

abbrev pub StopSet : Type 0
StopSet = Dict (Unit {0})

pub record Service : Type 0 where
  pub stop_words : StopSet

-- `_, blocked := s.stopWords[p]`
unfoldable pub is_blocked : StopSet → Str → Bool
is_blocked stop p = elim (lookup p stop) [ none ↦ false | some _ ↦ true ]

-- the loop that filters the parts
unfoldable pub drop_blocked : StopSet → List Str → List Str
unfolding is_blocked
drop_blocked stop [] = []
drop_blocked stop (p ∷ parts) =
    if is_blocked stop p then drop_blocked stop parts else p ∷ drop_blocked stop parts

module _ (u : Unicode) where
  -- `strings.ToLower`
  abbrev pub to_lower : Str → Str
  to_lower = map u.to_lower

  -- `[^\p{L}\p{N}\s]`
  abbrev pub is_other : ℕ → Bool
  is_other c = not (is_word u c || matches_space c)

  -- The text before it is split: the first four lines of `Normalize`.
  unfoldable pub clean_text : Str → Str
  clean_text raw =
      replace_runs matches_space 0x20 false
        (replace_runs is_other 0x20 false (trim_space (to_lower raw)))

  -- `Normalize`; `none` is `ErrInvalidQuery`
  unfoldable pub normalize : Service → Str → Option Str
  normalize s raw =
      let q = clean_text raw in
      if is_empty q
      then none
      else let q' = join (drop_blocked s.stop_words (fields q)) in
        if ltb (length q') 2 then none else some q'

  -- `normalizeStopWords`
  unfoldable pub normalize_stop_words_from : List Str → StopSet → StopSet
  normalize_stop_words_from [] set = set
  normalize_stop_words_from (word ∷ rest) set =
      let w = trim_space (to_lower word) in
      normalize_stop_words_from rest (if is_empty w then set else insert w tt set)

  unfoldable pub normalize_stop_words : List Str → StopSet
  unfolding normalize_stop_words_from
  normalize_stop_words ws = normalize_stop_words_from ws []

  -- `NewService`
  unfoldable pub new_service : List Str → Service
  new_service stop_words = record { stop_words = normalize_stop_words stop_words }

  -- `ReplaceStopWords`
  unfoldable pub replace_stop_words : List Str → Service → Service
  replace_stop_words ws s = record s { stop_words = normalize_stop_words ws }
