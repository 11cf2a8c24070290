-- ===== src/Dedup.antt =====
-- internal/engine/dedup/ttl_store.go: the ids of the events seen, each with the time at which it
-- may be forgotten. The mutex makes `SeenOrAdd` one atomic step.
pub mod History
use wb_trial_task.Common.{
  ℕ, Bool, true, false, not, ◌||◌, Option, none, some, List, [], ◌∷◌, ltb, ◌==◌, if◌then◌else◌, Str,
  is_empty, pos, leb_ℤ, ◌*◌,
}
use wb_trial_task.Common.Dict.{Dict, lookup, insert, retain}
use wb_trial_task.Clock.{Time, Duration, add_duration, minute}

pub record Store : Type 0 where
  pub ttl : Duration
  pub seen : Dict Time

unfoldable pub new_store : Duration → Store
new_store ttl = record { ttl = if leb_ℤ ttl (pos 0) then pos (10 * minute) else ttl; seen = [] }

-- `exp.Before(now) || exp.Equal(now)`
abbrev pub is_expired : Time → Time → Bool
is_expired now exp = ltb exp now || exp == now

unfoldable pub cleanup : Time → Store → Store
cleanup now s = record s { seen = retain (λ exp. not (is_expired now exp)) s.seen }

-- the end of `SeenOrAdd`
abbrev pub add_key : Str → Time → Store → Bool × Store
add_key key now s = (false, record s { seen = insert key (add_duration now s.ttl) s.seen })

unfoldable pub look_up_or_add : Str → Time → Store → Bool × Store
look_up_or_add key now s = elim (lookup key s.seen) [
  | none ↦ add_key key now s
  | some exp ↦ if ltb now exp then (true, s) else add_key key now s
]

-- `SeenOrAdd`
unfoldable pub seen_or_add : Str → Time → Store → Bool × Store
unfolding look_up_or_add
seen_or_add key now s = if is_empty key then (false, s) else look_up_or_add key now (cleanup now s)
