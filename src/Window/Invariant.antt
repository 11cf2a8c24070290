-- ===== src/Window/Invariant.antt =====
-- The invariant of the window engine: the totals are the sums of the ring's buckets.
use wb_trial_task.Common.{
  ℕ, zero, suc, ◌+◌, ◌<◌, ◌≡◌, refl, true, false, ◌||◌, some, List, [], ◌∷◌, arith, leb, Str,
  is_empty, ℤ, length, set, replicate, length-replicate, length-set, get_elem?-lt_length,
  Bool-cases, inl, inr,
}
use wb_trial_task.Common.Dict.{Dict, get, lookup}
use wb_trial_task.Clock.{Time}
use wb_trial_task.Domain.{TopItem}
use wb_trial_task.Window.{
  Bucket, Engine, empty_bucket, new_engine, evict_bucket, evict_expired_buckets, claim_bucket, bump,
  bucket_index, build_snapshot_state, should_rebuild, rebuild, event_second, record_query, add_at,
  add, refresh, window_or_default,
}
use wb_trial_task.Common.Tally.{IsTally, IsTally-nil}
use wb_trial_task.Window.Sums.{
  sum_counts, AllTally, get-bump, bump-IsTally, get-evict_bucket, get-claim_bucket,
  evict_bucket-IsTally, claim_bucket-IsTally, sum_counts-set, get-le-sum_counts, AllTally-get_elem?,
  AllTally-set,
}

-- The items that a rebuild stores for given totals.
abbrev pub ranked : Engine → List TopItem
ranked e = (build_snapshot_state 0 e.totals).items

pub record IsValid (e : Engine) : Type 0 where
  pub window_pos : 0 < e.window_seconds
  pub ring : length e.buckets ≡ e.window_seconds
  pub tallies : AllTally e.buckets
  pub totals_tally : IsTally e.totals
  pub balanced : (q : Str) → get q e.totals ≡ sum_counts q e.buckets
  pub fresh : e.dirty ≡ false → e.cached.items ≡ ranked e

AllTally-replicate : (n : ℕ) → AllTally (replicate n empty_bucket)
AllTally-replicate zero = tt
AllTally-replicate (suc n) = (IsTally-nil, AllTally-replicate n)

sum_counts-replicate : (q : Str) (n : ℕ) → sum_counts q (replicate n empty_bucket) ≡ 0
unfolding lookup
sum_counts-replicate q zero = refl
sum_counts-replicate q (suc n) = omega (arith, sum_counts-replicate q n)

window_or_default_pos : (w : ℤ) → 0 < window_or_default w
window_or_default_pos w = ground arith

-- The constructor gives a valid engine, whatever the configured size.
pub new_engine-IsValid : (w : ℤ) → IsValid (new_engine w)
unfolding new_engine lookup
new_engine-IsValid w = record {
  window_pos = window_or_default_pos w;
  ring = length-replicate (window_or_default w) empty_bucket;
  tallies = AllTally-replicate (window_or_default w);
  totals_tally = IsTally-nil;
  balanced = λ q. omega (arith, sum_counts-replicate q (window_or_default w));
  fresh = λ h. cc;
}

-- Eviction keeps the totals equal to the sum over the buckets, here with a part `r` that stands
-- for the buckets already passed.
get-evict_expired_buckets :
    (q : Str) (max_age cur r : ℕ) (bs : List Bucket) (totals : Dict ℕ)
    → AllTally bs
    → get q totals ≡ sum_counts q bs + r
    → let (bs', totals') = evict_expired_buckets max_age cur bs totals in
      get q totals' ≡ sum_counts q bs' + r
unfolding evict_expired_buckets
get-evict_expired_buckets q max_age cur r [] totals h e = e
get-evict_expired_buckets q max_age cur r (b ∷ bs) totals h e =
    let (b', totals') = evict_bucket max_age cur b totals in
    let (bs', totals'') = evict_expired_buckets max_age cur bs totals' in
    let step : get q totals' + get q b.counts ≡ get q totals + get q b'.counts =
      get-evict_bucket q max_age cur b totals h.0 (omega arith) in
    let rest : get q totals'' ≡ sum_counts q bs' + (get q b'.counts + r) =
      get-evict_expired_buckets q max_age cur (get q b'.counts + r) bs totals' h.1 (omega arith) in
    omega arith

pub evict_expired_buckets-IsTally :
    (max_age cur : ℕ) (bs : List Bucket) (totals : Dict ℕ)
    → AllTally bs
    → IsTally totals
    → let (bs', totals') = evict_expired_buckets max_age cur bs totals in
      AllTally bs' × IsTally totals'
unfolding evict_expired_buckets
evict_expired_buckets-IsTally max_age cur [] totals h k = (tt, k)
evict_expired_buckets-IsTally max_age cur (b ∷ bs) totals h k =
    let (bt, tt') = evict_bucket-IsTally max_age cur b totals h.0 k in
    let (rest, done) =
      evict_expired_buckets-IsTally max_age cur bs (evict_bucket max_age cur b totals).1 h.1 tt' in
    ((bt, rest), done)

pub length-evict_expired_buckets :
    (max_age cur : ℕ) (bs : List Bucket) (totals : Dict ℕ)
    → length (evict_expired_buckets max_age cur bs totals).0 ≡ length bs
unfolding evict_expired_buckets
length-evict_expired_buckets max_age cur [] totals = refl
length-evict_expired_buckets max_age cur (b ∷ bs) totals =
    omega (arith, length-evict_expired_buckets max_age cur bs (evict_bucket max_age cur b totals).1)

-- `record_query` inside the ring: the result, and what it keeps.
record RecordOk (q : Str) (score : ℕ) (bs bs' : List Bucket) (totals totals' : Dict ℕ)
    : Type 0 where
  same_length : length bs' ≡ length bs
  tallies : AllTally bs'
  totals_tally : IsTally totals'
  balanced : (j : Str) → get j totals' ≡ sum_counts j bs'

record_query-Ok :
    (idx sec : ℕ) (q : Str) (score : ℕ) (bs : List Bucket) (totals : Dict ℕ)
    → 0 < score
    → idx < length bs
    → AllTally bs
    → IsTally totals
    → ((j : Str) → get j totals ≡ sum_counts j bs)
    → (bs' : List Bucket) × (totals' : Dict ℕ) × (record_query idx sec q score bs totals
        ≡ some (bs', totals'))
      × RecordOk q score bs bs' totals totals'
unfolding record_query
record_query-Ok idx sec q score bs totals p lt h k bal =
    let (b, found) = get_elem?-lt_length bs idx lt in
    let bt = AllTally-get_elem? idx b bs h found in
    let (ct, tt') = claim_bucket-IsTally sec b totals bt k in
    let (b', totals') = claim_bucket sec b totals in
    let b'' : Bucket = record b' { counts = bump q score b'.counts } in
    (
      set bs idx b'',
      bump q score totals',
      rw (found, record_query) refl,
      record {
        same_length = length-set bs idx b'';
        tallies = AllTally-set idx b'' bs h (bump-IsTally q score b'.counts p ct);
        totals_tally = bump-IsTally q score totals' p tt';
        balanced = λ j. ground (
          arith,
          bal j,
          get-le-sum_counts j idx b bs found,
          sum_counts-set j idx b b'' bs found,
          get-claim_bucket j sec b totals bt,
          get-bump q j score totals',
          get-bump q j score b'.counts,
        );
      },
    )

-- `add_at` on a valid engine stays inside the ring, and gives a valid engine up to the cache,
-- which is marked dirty.
pub record AddedAt (sec : ℕ) (q : Str) (score : ℕ) (e e' : Engine) : Type 0 where
  pub runs : add_at sec q score e ≡ some e'
  pub valid : IsValid e'
  pub marked : e'.dirty ≡ true

pub add_at-IsValid :
    (sec : ℕ) (q : Str) (score : ℕ) (e : Engine)
    → 0 < score
    → IsValid e
    → (e' : Engine) × AddedAt sec q score e e'
unfolding add_at
add_at-IsValid sec q score e p v =
    let (bs, totals) = evict_expired_buckets e.window_seconds sec e.buckets e.totals in
    let (at, kt) =
      evict_expired_buckets-IsTally e.window_seconds sec e.buckets e.totals v.tallies
        v.totals_tally in
    let len : length bs ≡ length e.buckets =
      length-evict_expired_buckets e.window_seconds sec e.buckets e.totals in
    let bal : (j : Str) → get j totals ≡ sum_counts j bs = λ j.
      (let b : get j totals ≡ sum_counts j bs + 0 =
          get-evict_expired_buckets j e.window_seconds sec 0 e.buckets e.totals v.tallies
            (omega (arith, v.balanced j)) in
        omega arith) in
    let (bs', totals', eq, k) =
      record_query-Ok (bucket_index sec e) sec q score bs totals p (idx_lt bs len) at kt bal in
    (
      record e { buckets = bs'; totals = totals'; dirty = true },
      record {
        runs = rw (eq, add_at) refl;
        valid = record {
          window_pos = v.window_pos;
          ring = omega (arith, k.same_length, len, v.ring);
          tallies = k.tallies;
          totals_tally = k.totals_tally;
          balanced = k.balanced;
          fresh = λ h. cc;
        };
        marked = refl;
      },
    )
  where
    idx_lt : (bs : List Bucket) → length bs ≡ length e.buckets → bucket_index sec e < length bs
    idx_lt bs len = grind (arith, v.ring, v.window_pos)

pub rebuild-IsValid : (now : Time) (e : Engine) → IsValid e → IsValid (rebuild now e)
unfolding rebuild build_snapshot_state
rebuild-IsValid now e v = record {
  window_pos = v.window_pos;
  ring = v.ring;
  tallies = v.tallies;
  totals_tally = v.totals_tally;
  balanced = v.balanced;
  fresh = λ h. refl;
}

-- `Add` on a valid engine never indexes outside the ring, and leaves a valid engine.
pub add-IsValid :
    (q : Str) (score : ℕ) (ms : ℤ) (now : Time) (e : Engine)
    → IsValid e
    → (e' : Engine) × (add q score ms now e ≡ some e') × IsValid e'
unfolding add
add-IsValid q score ms now e v = elim (Bool-cases (is_empty q || leb score 0)) [
  | inl skip ↦ (e, rw (skip) refl, v)
  | inr go ↦
      let (e₁, a) = add_at-IsValid (event_second ms now) q score e (score_pos q score go) v in
      elim (Bool-cases (should_rebuild now e₁)) [
        | inl again ↦ (rebuild now e₁, rw (go, a.runs, again) refl, rebuild-IsValid now e₁ a.valid)
        | inr later ↦ (e₁, rw (go, a.runs, later) refl, a.valid)
      ]
]
  where
    score_pos : (q : Str) (score : ℕ) → (is_empty q || leb score 0) ≡ false → 0 < score
    score_pos q score h = ground arith

pub refresh-IsValid : (now : Time) (e : Engine) → IsValid e → IsValid (refresh now e)
unfolding refresh
refresh-IsValid now e v = ground (arith, rebuild-IsValid now e v)
