-- ===== src/Window/Ring.antt =====
-- What one `add_at` does to each bucket of the ring.
use wb_trial_task.Common.{
  ℕ, zero, suc, ◌+◌, ◌≡◌, refl, ◌≢◌, ◌∙◌, some, List, [], ◌∷◌, arith, leb, ◌==◌, if◌then◌else◌, Str,
  get_elem?, set, Option-cases, inl, inr, ◌⊎◌,
}
use wb_trial_task.Common.Dict.{Dict}
use wb_trial_task.Window.{
  Bucket, Engine, empty_bucket, evict_bucket, evict_expired_buckets, claim_bucket, bump,
  bucket_index, record_query, add_at,
}

-- The bucket that eviction leaves in place of `b`.
abbrev pub evicted : ℕ → ℕ → Bucket → Bucket
evicted max_age sec b =
    if b.epoch_second == 0
    then b
    else if leb (b.epoch_second + max_age) sec
    then empty_bucket
    else b

-- The bucket that an event of `sec` leaves in place of `b`.
abbrev pub hit_bucket : ℕ → ℕ → Str → ℕ → Bucket → Bucket
hit_bucket max_age sec query score b =
    let b' = evicted max_age sec b in
    if b'.epoch_second == sec
    then record b' { counts = bump query score b'.counts }
    else record { epoch_second = sec; counts = bump query score [] }

get_elem?-evict_expired_buckets :
    (max_age sec i : ℕ) (b' : Bucket) (bs : List Bucket) (totals : Dict ℕ)
    → get_elem? (evict_expired_buckets max_age sec bs totals).0 i ≡ some b'
    → (b : Bucket) × (get_elem? bs i ≡ some b) × (b' ≡ evicted max_age sec b)
unfolding evict_expired_buckets evict_bucket
get_elem?-evict_expired_buckets max_age sec i b' [] totals h = cc
get_elem?-evict_expired_buckets max_age sec zero b' (b ∷ bs) totals h = (b, refl, ground arith)
get_elem?-evict_expired_buckets max_age sec (suc i) b' (b ∷ bs) totals h =
    get_elem?-evict_expired_buckets max_age sec i b' bs (evict_bucket max_age sec b totals).1 h

get_elem?-set_cases :
    (bs : List Bucket) (idx i : ℕ) (v b : Bucket)
    → get_elem? (set bs idx v) i ≡ some b
    → ((i ≡ idx) × (b ≡ v)) ⊎ ((i ≢ idx) × (get_elem? bs i ≡ some b))
get_elem?-set_cases [] idx i v b h = cc
get_elem?-set_cases (x ∷ bs) zero zero v b h = inl (refl, ground arith)
get_elem?-set_cases (x ∷ bs) zero (suc i) v b h = inr (omega arith, h)
get_elem?-set_cases (x ∷ bs) (suc idx) zero v b h = inr (omega arith, h)
get_elem?-set_cases (x ∷ bs) (suc idx) (suc i) v b h = elim (get_elem?-set_cases bs idx i v b h) [
  | inl (e, p) ↦ inl (omega arith, p)
  | inr (n, p) ↦ inr (omega arith, p)
]

claim-hit_bucket :
    (max_age sec : ℕ) (q : Str) (score : ℕ) (b b' : Bucket) (totals : Dict ℕ)
    → b' ≡ evicted max_age sec b
    → (let c = (claim_bucket sec b' totals).0 in record c { counts = bump q score c.counts })
      ≡ hit_bucket max_age sec q score b
unfolding claim_bucket
claim-hit_bucket max_age sec q score b b' totals h = rw h (ground arith)

record_query-buckets :
    (idx sec : ℕ) (q : Str) (score : ℕ) (bs : List Bucket) (totals : Dict ℕ) (bs' : List Bucket)
    (totals' : Dict ℕ)
    → record_query idx sec q score bs totals ≡ some (bs', totals')
    → (b : Bucket) × (get_elem? bs idx ≡ some b)
      × (bs'
          ≡ set bs idx (
              let c = (claim_bucket sec b totals).0 in record c { counts = bump q score c.counts }))
unfolding record_query
record_query-buckets idx sec q score bs totals bs' totals' h =
    elim (Option-cases (get_elem? bs idx)) [
      | inl out ↦ absurd (ground arith)
      | inr (b, found) ↦ (b, found, ground arith)
    ]

-- After an event each bucket of the ring is the old one after eviction, but for the bucket of the
-- event's second; the size of the window stays.
pub record Stepped (sec : ℕ) (q : Str) (score : ℕ) (e e' : Engine) : Type 0 where
  pub window : e'.window_seconds ≡ e.window_seconds
  pub bucket :
      (i : ℕ) (b' : Bucket)
      → get_elem? e'.buckets i ≡ some b'
      → (b : Bucket) × (get_elem? e.buckets i ≡ some b)
        × (((i ≡ bucket_index sec e) × (b' ≡ hit_bucket e.window_seconds sec q score b))
            ⊎ ((i ≢ bucket_index sec e) × (b' ≡ evicted e.window_seconds sec b)))

add_at-parts :
    (sec : ℕ) (q : Str) (score : ℕ) (e e' : Engine)
    → add_at sec q score e ≡ some e'
    → let (bs, totals) = evict_expired_buckets e.window_seconds sec e.buckets e.totals in
      (totals' : Dict ℕ) × (record_query (bucket_index sec e) sec q score bs totals
        ≡ some (e'.buckets, totals'))
      × (e'.window_seconds ≡ e.window_seconds)
unfolding add_at
add_at-parts sec q score e e' h =
    let (bs, totals) = evict_expired_buckets e.window_seconds sec e.buckets e.totals in
    elim (Option-cases (record_query (bucket_index sec e) sec q score bs totals)) [
      | inl out ↦ absurd (ground arith)
      | inr ((bs', totals'), found) ↦ (totals', ground arith, ground arith)
    ]

pub add_at-Stepped :
    (sec : ℕ) (q : Str) (score : ℕ) (e e' : Engine)
    → add_at sec q score e ≡ some e'
    → Stepped sec q score e e'
add_at-Stepped sec q score e e' h =
    let (bs, totals) = evict_expired_buckets e.window_seconds sec e.buckets e.totals in
    let (totals', found, window) = add_at-parts sec q score e e' h in
    let (b₀, at, eq) =
      record_query-buckets (bucket_index sec e) sec q score bs totals e'.buckets totals' found in
    record {
      window = window;
      bucket = λ i b' g.
          bucket_of b₀ at eq i b' (get_elem?-set_cases bs (bucket_index sec e) i _ b' (rw eq at g));
    }
  where
    bucket_of :
        (b₀ : Bucket)
        → get_elem?
            (evict_expired_buckets e.window_seconds sec e.buckets e.totals).0
            (bucket_index sec e)
          ≡ some b₀
        → e'.buckets
          ≡ set
              (evict_expired_buckets e.window_seconds sec e.buckets e.totals).0
              (bucket_index sec e)
              (let c =
                  (claim_bucket sec b₀
                    (evict_expired_buckets e.window_seconds sec e.buckets e.totals).1).0 in
                record c { counts = bump q score c.counts })
        → (i : ℕ) (b' : Bucket)
        → ((i ≡ bucket_index sec e)
            × (b' ≡ (
                let c =
                  (claim_bucket sec b₀
                    (evict_expired_buckets e.window_seconds sec e.buckets e.totals).1).0 in
                record c { counts = bump q score c.counts })))
          ⊎ ((i ≢ bucket_index sec e)
              × (get_elem? (evict_expired_buckets e.window_seconds sec e.buckets e.totals).0 i
                  ≡ some b'))
        → (b : Bucket) × (get_elem? e.buckets i ≡ some b)
          × (((i ≡ bucket_index sec e) × (b' ≡ hit_bucket e.window_seconds sec q score b))
              ⊎ ((i ≢ bucket_index sec e) × (b' ≡ evicted e.window_seconds sec b)))
    bucket_of b₀ at eq i b' (inl (same, is)) =
        let (b, old, ev) =
          get_elem?-evict_expired_buckets e.window_seconds sec (bucket_index sec e) b₀ e.buckets
            e.totals at in
        (b, rw same old, inl (same, is ∙ claim-hit_bucket e.window_seconds sec q score b b₀ _ ev))
    bucket_of b₀ at eq i b' (inr (other, is)) =
        let (b, old, ev) =
          get_elem?-evict_expired_buckets e.window_seconds sec i b' e.buckets e.totals is in
        (b, old, inr (other, ev))
