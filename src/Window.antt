-- ===== src/Window.antt =====
-- internal/engine/window/ring_buffer.go: the ring of one-second buckets, the totals, and the
-- cached snapshot. A call of `time.Now()` is an argument `now`. The mutex makes `Add` and
-- `Snapshot` atomic, so each is one function on the state.
pub mod Sums
pub mod Order
pub mod Ranking
pub mod Top
pub mod Unique
pub mod Bounds
pub mod Reading
pub mod Version
pub mod Ring
pub mod History
pub mod Sliding
pub mod Replay
pub mod Refinement
pub mod Limits
pub mod Invariant
use wb_trial_task.Common.{
  ℕ, zero, suc, ◌+◌, ◌-◌, ◌*◌, ◌/◌, ◌%◌, Bool, true, false, not, ◌&&◌, ◌||◌, Option, none, some,
  List, [], ◌∷◌, ltb, leb, ◌==◌, if◌then◌else◌, Str, is_empty, str_lt, ℤ, pos, leb_ℤ, pos_part,
  length, get_elem?, set, take, replicate,
}
use wb_trial_task.Common.Dict.{Dict, get, lookup, insert, erase}
use wb_trial_task.Clock.{Time, unix, unix_milli, millisecond}
use wb_trial_task.Domain.{TopItem, TopSnapshot}

pub record Bucket : Type 0 where
  pub epoch_second : ℕ
  pub counts : Dict ℕ

pub record SnapshotState : Type 0 where
  pub generated_at_ms : ℕ
  pub items : List TopItem

pub record Engine : Type 0 where
  pub window_seconds : ℕ
  pub buckets : List Bucket
  pub totals : Dict ℕ
  pub cached : SnapshotState
  pub dirty : Bool
  pub last_rebuild_at : Option Time
  pub rebuild_interval : ℕ

abbrev pub empty_bucket : Bucket
empty_bucket = record { epoch_second = 0; counts = [] }

-- `windowSeconds <= 0` takes the default. A size for which `make` finds no memory panics in the
-- source; here memory has no bound.
abbrev pub window_or_default : ℤ → ℕ
window_or_default w = if leb_ℤ w (pos 0) then 300 else pos_part w

unfoldable pub new_engine : ℤ → Engine
new_engine w = record {
  window_seconds = window_or_default w;
  buckets = replicate (window_or_default w) empty_bucket;
  totals = [];
  cached = record { generated_at_ms = 0; items = [] };
  dirty = true;
  last_rebuild_at = none;
  rebuild_interval = 250 * millisecond;
}

-- One round of the loop of `removeBucketContributionLocked`. `total - cnt <= 0` is `total <= cnt`.
abbrev pub subtract_count : Str → ℕ → Dict ℕ → Dict ℕ
subtract_count query cnt totals =
    if leb (get query totals) cnt
    then erase query totals
    else insert query (get query totals - cnt) totals

unfoldable pub remove_counts : Dict ℕ → Dict ℕ → Dict ℕ
remove_counts [] totals = totals
remove_counts ((query, cnt) ∷ counts) totals =
    remove_counts counts (subtract_count query cnt totals)

-- `removeBucketContributionLocked`
abbrev pub remove_bucket_contribution : Bucket → Dict ℕ → Dict ℕ
remove_bucket_contribution b totals = remove_counts b.counts totals

-- The body of the loop of `evictExpiredBucketsLocked`. `currentSecond - epochSecond >= maxAge` is
-- written without the subtraction, which on `int64` goes below 0.
unfoldable pub evict_bucket : ℕ → ℕ → Bucket → Dict ℕ → Bucket × Dict ℕ
evict_bucket max_age current_second b totals =
    if b.epoch_second == 0
    then (b, totals)
    else if leb (b.epoch_second + max_age) current_second
    then (empty_bucket, remove_bucket_contribution b totals)
    else (b, totals)

-- `evictExpiredBucketsLocked`
unfoldable pub evict_expired_buckets : ℕ → ℕ → List Bucket → Dict ℕ → List Bucket × Dict ℕ
evict_expired_buckets max_age current_second [] totals = ([], totals)
evict_expired_buckets max_age current_second (b ∷ bs) totals =
    let (b', totals') = evict_bucket max_age current_second b totals in
    let (bs', totals'') = evict_expired_buckets max_age current_second bs totals' in
    (b' ∷ bs', totals'')

-- The bucket of `sec` as `Add` finds it, reset if it holds another second.
unfoldable pub claim_bucket : ℕ → Bucket → Dict ℕ → Bucket × Dict ℕ
claim_bucket sec b totals =
    if b.epoch_second == sec
    then (b, totals)
    else (record { epoch_second = sec; counts = [] }, remove_bucket_contribution b totals)

-- `m[query] += score`
abbrev pub bump : Str → ℕ → Dict ℕ → Dict ℕ
bump query score m = insert query (get query m + score) m

abbrev pub bucket_index : ℕ → Engine → ℕ
bucket_index sec e = sec % e.window_seconds

-- the `less` of `sort.Slice`
unfoldable pub item_less : TopItem → TopItem → Bool
item_less a b = if a.score == b.score then str_lt a.query b.query else ltb b.score a.score

-- `sort.Slice`: the order is total on items with different queries, so the result does not
-- depend on the algorithm.
unfoldable pub insert_item : TopItem → List TopItem → List TopItem
insert_item a [] = a ∷ []
insert_item a (b ∷ bs) = if item_less a b then a ∷ b ∷ bs else b ∷ insert_item a bs

unfoldable pub sort_items : List TopItem → List TopItem
unfolding insert_item
sort_items [] = []
sort_items (a ∷ rest) = insert_item a (sort_items rest)

abbrev pub item_of : Str → ℕ → TopItem
item_of query score = record {
  rank = 0;
  query = query;
  score = score;
  count = score;
  unique_sources = 0;
}

-- the loop that collects the items
unfoldable pub collect_items : Dict ℕ → List TopItem
collect_items [] = []
collect_items ((query, score) ∷ totals) =
    if leb score 0 then collect_items totals else item_of query score ∷ collect_items totals

-- `items[i].Rank = i + 1`
unfoldable pub rank_items : ℕ → List TopItem → List TopItem
rank_items i [] = []
rank_items i (a ∷ rest) = record a { rank = i + 1 } ∷ rank_items (i + 1) rest

unfoldable pub build_snapshot_state : Time → Dict ℕ → SnapshotState
unfolding sort_items collect_items rank_items
build_snapshot_state now totals = record {
  generated_at_ms = unix_milli now;
  items = rank_items 0 (sort_items (collect_items totals));
}

unfoldable pub should_rebuild : Time → Engine → Bool
should_rebuild now e =
    if not e.dirty
    then false
    else elim e.last_rebuild_at [ none ↦ true | some last ↦ leb (last + e.rebuild_interval) now ]

unfoldable pub rebuild : Time → Engine → Engine
rebuild now e = record e {
  cached = build_snapshot_state now e.totals;
  last_rebuild_at = some now;
  dirty = false;
}

-- `sec := ingestedAtMS / 1000`, with the clock where that is not positive
abbrev pub event_second : ℤ → Time → ℕ
event_second ingested_at_ms now =
    if leb (pos_part ingested_at_ms / 1000) 0 then unix now else pos_part ingested_at_ms / 1000

-- What `Add` does to the bucket of `sec` and to the totals once the expired buckets are gone.
-- `none`: the index lies outside the ring (Go panics).
unfoldable pub record_query : ℕ → ℕ → Str → ℕ → List Bucket → Dict ℕ → Option (List Bucket × Dict ℕ)
record_query idx sec query score buckets totals = elim (get_elem? buckets idx) [
  | none ↦ none
  | some b ↦
      let (b', totals') = claim_bucket sec b totals in
      some (
        set buckets idx (record b' { counts = bump query score b'.counts }),
        bump query score totals',
      )
]

-- the writes of `Add` under the lock, up to `e.dirty = true`
unfoldable pub add_at : ℕ → Str → ℕ → Engine → Option Engine
add_at sec query score e =
    let (buckets, totals) = evict_expired_buckets e.window_seconds sec e.buckets e.totals in
    elim (record_query (bucket_index sec e) sec query score buckets totals) [
      | none ↦ none
      | some (buckets', totals') ↦
          some (record e { buckets = buckets'; totals = totals'; dirty = true })
    ]

-- `Add`; `none` is a panic. Its two readings of the clock, a few instructions apart, are one.
unfoldable pub add : Str → ℕ → ℤ → Time → Engine → Option Engine
add query score ingested_at_ms now e =
    if is_empty query || leb score 0
    then some e
    else elim (add_at (event_second ingested_at_ms now) query score e) [
      | none ↦ none
      | some e' ↦ some (if should_rebuild now e' then rebuild now e' else e')
    ]

abbrev pub limit_or_default : ℤ → ℕ
limit_or_default n = if leb_ℤ n (pos 0) then 10 else pos_part n

unfoldable pub refresh : Time → Engine → Engine
refresh now e = if e.dirty then rebuild now e else e

-- `Snapshot`: the reply, and the engine with its cache brought up to date
unfoldable pub snapshot : ℤ → Time → Engine → TopSnapshot × Engine
snapshot n now e =
    let e' = refresh now e in
    (
      record {
        generated_at_ms = e'.cached.generated_at_ms;
        window_seconds = e'.window_seconds;
        items = take (limit_or_default n) e'.cached.items;
      },
      e',
    )
