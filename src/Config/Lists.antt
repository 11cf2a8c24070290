-- ===== src/Config/Lists.antt =====
-- A list of settings that is written with commas is read back.
use wb_trial_task.Common.{◌≡◌, refl, false, List, [], ◌∷◌, ◌++◌, ◌==◌, Str, All, is_empty}
use wb_trial_task.Normalizer.{is_space}
use wb_trial_task.Normalizer.Trim.{trim_space_plain}
use wb_trial_task.Config.Readers.{Env, split_commas, trimmed_parts, get_env_csv}

abbrev pub join_commas : List Str → Str
join_commas [] = []
join_commas (w ∷ []) = w
join_commas (w ∷ v ∷ ws) = w ++ b',' ∷ join_commas (v ∷ ws)

-- A setting with no white space and no comma inside.
abbrev pub IsPlain : Str → Type 0
IsPlain w = (is_empty w ≡ false) × All (λ c. (is_space c ≡ false) × ((c == b',') ≡ false)) w

abbrev HasNoComma : Str → Type 0
HasNoComma = All (λ c. (c == b',') ≡ false)

abbrev HasNoSpace : Str → Type 0
HasNoSpace = All (λ c. is_space c ≡ false)

split_commas-append : (w s : Str) → HasNoComma w → split_commas (w ++ b',' ∷ s) ≡ w ∷ split_commas s
unfolding split_commas
split_commas-append [] s h = refl
split_commas-append (c ∷ w) s h = rw (split_commas-append w s h.1, h.0) refl

split_commas_last : (w : Str) → HasNoComma w → split_commas w ≡ w ∷ []
unfolding split_commas
split_commas_last [] h = refl
split_commas_last (c ∷ w) h = rw (split_commas_last w h.1, h.0) refl

no_commas : (w : Str) → All (λ c. (is_space c ≡ false) × ((c == b',') ≡ false)) w → HasNoComma w
no_commas [] h = tt
no_commas (c ∷ w) h = (h.0.1, no_commas w h.1)

no_spaces : (w : Str) → All (λ c. (is_space c ≡ false) × ((c == b',') ≡ false)) w → HasNoSpace w
no_spaces [] h = tt
no_spaces (c ∷ w) h = (h.0.0, no_spaces w h.1)

split_commas-join_commas :
    (w : Str) (ws : List Str) → All IsPlain (w ∷ ws) → split_commas (join_commas (w ∷ ws)) ≡ w ∷ ws
split_commas-join_commas w [] h = split_commas_last w (no_commas w h.0.1)
split_commas-join_commas w (v ∷ ws) h =
    rw
      (
        split_commas-append w (join_commas (v ∷ ws)) (no_commas w h.0.1),
        split_commas-join_commas v ws h.1,
      )
      refl

trimmed_parts_plain : (ws : List Str) → All IsPlain ws → trimmed_parts ws ≡ ws
unfolding trimmed_parts
trimmed_parts_plain [] h = refl
trimmed_parts_plain (w ∷ ws) h =
    rw (trim_space_plain w (no_spaces w h.0.1), h.0.0, trimmed_parts_plain ws h.1) refl

append-HasNoSpace : (a b : Str) → HasNoSpace a → HasNoSpace b → HasNoSpace (a ++ b)
append-HasNoSpace [] b h k = k
append-HasNoSpace (c ∷ a) b h k = (h.0, append-HasNoSpace a b h.1 k)

join_commas-HasNoSpace : (ws : List Str) → All IsPlain ws → HasNoSpace (join_commas ws)
unfolding is_space
join_commas-HasNoSpace [] h = tt
join_commas-HasNoSpace (w ∷ []) h = no_spaces w h.0.1
join_commas-HasNoSpace (w ∷ v ∷ ws) h =
    append-HasNoSpace w (b',' ∷ join_commas (v ∷ ws)) (no_spaces w h.0.1)
      (refl, join_commas-HasNoSpace (v ∷ ws) h.1)

join_commas_full : (w : Str) (ws : List Str) → IsPlain w → is_empty (join_commas (w ∷ ws)) ≡ false
join_commas_full [] ws h = cc
join_commas_full (c ∷ w) [] h = refl
join_commas_full (c ∷ w) (v ∷ ws) h = refl

-- A variable that holds plain settings with commas between them, one at least, is read as these
-- settings, in their order.
pub get_env_csv-join_commas :
    (env : Env) (key : Str) (fallback : List Str) (w : Str) (ws : List Str)
    → All IsPlain (w ∷ ws)
    → env key ≡ join_commas (w ∷ ws)
    → get_env_csv env key fallback ≡ w ∷ ws
unfolding get_env_csv
get_env_csv-join_commas env key fallback w ws h e =
    rw
      (
        e,
        trim_space_plain (join_commas (w ∷ ws)) (join_commas-HasNoSpace (w ∷ ws) h),
        join_commas_full w ws h.0,
        split_commas-join_commas w ws h,
        trimmed_parts_plain (w ∷ ws) h,
      )
      refl
