-- ===== src/Dedup/History.antt =====
-- The store against the history of its calls: within its time to live a key is reported exactly
-- when it was added before.
use wb_trial_task.Common.{
  ◌<◌, ◌≡◌, refl, true, false, not, Option, none, some, List, [], ◌∷◌, arith, if◌then◌else◌, Str,
  Str-discrete, is_empty, All, inl, inr, ◌⊎◌, Option-cases,
}
use wb_trial_task.Common.Dict.{
  lookup, retain, IsDistinct, lookup-insert, lookup-retain, lookup-retain-some, retain-IsDistinct,
  insert-IsDistinct,
}
use wb_trial_task.Clock.{Time, Duration, add_duration}
use wb_trial_task.Dedup.{Store, new_store, cleanup, is_expired, add_key, seen_or_add}

pub record Request : Type 0 where
  pub key : Str
  pub now : Time

unfoldable pub run_requests : List Request → Store → Store
run_requests [] s = s
run_requests (r ∷ requests) s = run_requests requests (seen_or_add r.key r.now s).1

-- The store holds an entry for the key that expires at `exp`.
abbrev Holds : Str → Time → Store → Type 0
Holds key exp s = lookup key s.seen ≡ some exp

cleanup-Holds :
    (key : Str) (exp now : Time) (s : Store)
    → now < exp
    → Holds key exp s
    → Holds key exp (cleanup now s)
unfolding cleanup
cleanup-Holds key exp now s lt h =
    lookup-retain-some (λ t. not (is_expired now t)) key exp s.seen h (ground arith)

-- A call before the expiry keeps the entry, whatever its key.
seen_or_add-Holds :
    (key k : Str) (exp now : Time) (s : Store)
    → now < exp
    → Holds key exp s
    → Holds key exp (seen_or_add k now s).1
unfolding seen_or_add
seen_or_add-Holds key k exp now s lt h = ground (
  arith,
  cleanup-Holds key exp now s lt h,
  lookup-insert k key (add_duration now (cleanup now s).ttl) (cleanup now s).seen,
)

run_requests-Holds :
    (key : Str) (exp : Time) (requests : List Request) (s : Store)
    → All (λ (r : Request). r.now < exp) requests
    → Holds key exp s
    → Holds key exp (run_requests requests s)
unfolding run_requests
run_requests-Holds key exp [] s a h = h
run_requests-Holds key exp (r ∷ requests) s a h =
    run_requests-Holds key exp requests (seen_or_add r.key r.now s).1 a.1
      (seen_or_add-Holds key r.key exp r.now s a.0 h)

seen_or_add-true :
    (key : Str) (exp now : Time) (s : Store)
    → is_empty key ≡ false
    → now < exp
    → Holds key exp s
    → (seen_or_add key now s).0 ≡ true
unfolding seen_or_add
seen_or_add-true key exp now s ne lt h = ground (arith, cleanup-Holds key exp now s lt h)

seen_or_add-added :
    (key : Str) (now : Time) (s : Store)
    → is_empty key ≡ false
    → (seen_or_add key now s).0 ≡ false
    → Holds key (add_duration now s.ttl) (seen_or_add key now s).1
unfolding seen_or_add cleanup
seen_or_add-added key now s ne h = ground (
  arith,
  lookup-insert key key (add_duration now s.ttl) (retain (λ t. not (is_expired now t)) s.seen),
)

-- Once a call with a non-empty key at time `t` answers "not seen", every later call with that key
-- at a time before `t + ttl` answers "seen", whatever calls come between at times before then.
pub seen_or_add-remembers :
    (key : Str) (t t' : Time) (requests : List Request) (s : Store)
    → is_empty key ≡ false
    → (seen_or_add key t s).0 ≡ false
    → All (λ (r : Request). r.now < add_duration t s.ttl) requests
    → t' < add_duration t s.ttl
    → (seen_or_add key t' (run_requests requests (seen_or_add key t s).1)).0 ≡ true
seen_or_add-remembers key t t' requests s ne fresh before lt =
    seen_or_add-true key (add_duration t s.ttl) t' (run_requests requests (seen_or_add key t s).1)
      ne lt
      (run_requests-Holds key (add_duration t s.ttl) requests (seen_or_add key t s).1 before
        (seen_or_add-added key t s ne fresh))

-- A request with this key was made, and its time to live reaches beyond `now`.
abbrev pub Requested : Duration → Str → Time → List Request → Type 0
Requested ttl key now [] = ⊥
Requested ttl key now (r ∷ requests) =
    ((r.key ≡ key) × (now < add_duration r.now ttl)) ⊎ Requested ttl key now requests

-- Every entry of the store comes from a request of the list.
record Explained (ttl : Duration) (requests : List Request) (s : Store) : Type 0 where
  same_ttl : s.ttl ≡ ttl
  distinct : IsDistinct s.seen
  entry :
      (key : Str) (exp now : Time)
      → lookup key s.seen ≡ some exp
      → now < exp
      → Requested ttl key now requests

cleanup-Explained :
    (ttl : Duration) (now : Time) (requests : List Request) (s : Store)
    → Explained ttl requests s
    → Explained ttl requests (cleanup now s)
unfolding cleanup
cleanup-Explained ttl now requests s x = record {
  same_ttl = x.same_ttl;
  distinct = retain-IsDistinct (λ t. not (is_expired now t)) s.seen x.distinct;
  entry = λ key exp t h lt.
      x.entry key exp t
        (kept key exp (lookup key s.seen)
          (lookup-retain (λ t. not (is_expired now t)) key s.seen x.distinct) h)
        lt;
}
  where
    kept :
        (key : Str) (exp : Time) (o : Option Time)
        → lookup key (retain (λ t. not (is_expired now t)) s.seen)
          ≡ elim o [ none ↦ none | some v ↦ if not (is_expired now v) then some v else none ]
        → lookup key (retain (λ t. not (is_expired now t)) s.seen) ≡ some exp
        → o ≡ some exp
    kept key exp none e h = ground arith
    kept key exp (some v) e h = ground arith

Explained-later :
    (ttl : Duration) (r : Request) (requests : List Request) (s : Store)
    → Explained ttl requests s
    → Explained ttl (r ∷ requests) s
Explained-later ttl r requests s x = record {
  same_ttl = x.same_ttl;
  distinct = x.distinct;
  entry = λ key exp now h lt. inr (x.entry key exp now h lt);
}

add_key-Explained :
    (ttl : Duration) (r : Request) (requests : List Request) (s : Store)
    → Explained ttl requests s
    → Explained ttl (r ∷ requests) (add_key r.key r.now s).1
add_key-Explained ttl r requests s x = record {
  same_ttl = x.same_ttl;
  distinct = insert-IsDistinct r.key (add_duration r.now s.ttl) s.seen x.distinct;
  entry = λ key exp now h lt. elim (Str-discrete r.key key) [
    | yes same ↦ inl (
      same,
      ground (arith, x.same_ttl, lookup-insert r.key key (add_duration r.now s.ttl) s.seen),
    )
    | no other ↦ inr (
        x.entry key exp now
          (ground (arith, lookup-insert r.key key (add_duration r.now s.ttl) s.seen)) lt)
  ];
}

seen_or_add-Explained :
    (ttl : Duration) (r : Request) (requests : List Request) (s : Store)
    → Explained ttl requests s
    → Explained ttl (r ∷ requests) (seen_or_add r.key r.now s).1
unfolding seen_or_add
seen_or_add-Explained ttl r requests s x = ground (
  arith,
  Explained-later ttl r requests s x,
  Explained-later ttl r requests (cleanup r.now s) (cleanup-Explained ttl r.now requests s x),
  add_key-Explained ttl r requests (cleanup r.now s) (cleanup-Explained ttl r.now requests s x),
)

-- The requests of a run, most recent first, on top of older ones.
abbrev pub record_requests : List Request → List Request → List Request
record_requests [] h = h
record_requests (r ∷ requests) h = record_requests requests (r ∷ h)

run_requests-Explained :
    (ttl : Duration) (requests h : List Request) (s : Store)
    → Explained ttl h s
    → Explained ttl (record_requests requests h) (run_requests requests s)
unfolding run_requests
run_requests-Explained ttl [] h s x = x
run_requests-Explained ttl (r ∷ requests) h s x =
    run_requests-Explained ttl requests (r ∷ h) (seen_or_add r.key r.now s).1
      (seen_or_add-Explained ttl r h s x)

-- A key is never reported without cause: if a call on a store that began empty answers "seen",
-- then a request of the run before it had the same key and its time to live is not over.
pub seen_or_add_sound :
    (ttl : Duration) (requests : List Request) (key : Str) (now : Time)
    → (seen_or_add key now (run_requests requests (new_store ttl))).0 ≡ true
    → Requested (new_store ttl).ttl key now (record_requests requests [])
unfolding seen_or_add
seen_or_add_sound ttl requests key now h =
    let s = run_requests requests (new_store ttl) in
    let x =
      cleanup-Explained (new_store ttl).ttl now (record_requests requests []) s
        (run_requests-Explained (new_store ttl).ttl requests [] (new_store ttl) start) in
    elim (Option-cases (lookup key (cleanup now s).seen)) [
      | inl out ↦ absurd (ground arith)
      | inr (exp, found) ↦ x.entry key exp now found (ground arith)
    ]
  where
    start : Explained (new_store ttl).ttl [] (new_store ttl)
    start = record {
      same_ttl = refl;
      distinct = unfold new_store in tt;
      entry = λ key exp now h lt. unfold new_store lookup in cc;
    }
