-- ===== src/Tests/Window.antt =====
-- The window engine on small inputs.
use wb_trial_task.Common.{
  ℕ, ◌≡◌, refl, false, Option, none, some, List, [], ◌∷◌, arith, Str, Str-discrete, get_elem?, pos,
  map,
}
use wb_trial_task.Common.Dict.{get, lookup, insert, erase}
use wb_trial_task.Domain.{TopItem}
use wb_trial_task.Window.{
  Engine, new_engine, window_or_default, add_at, add, record_query, evict_bucket,
  evict_expired_buckets, claim_bucket, remove_counts, should_rebuild, rebuild, build_snapshot_state,
  snapshot, limit_or_default,
}
use wb_trial_task.Window.Invariant.{IsValid}
use wb_trial_task.Window.Top.{IsTop, snapshot-IsTop}
use wb_trial_task.Window.Unique.{snapshot_unique}
use wb_trial_task.Window.History.{window_count}
use wb_trial_task.Window.Replay.{AddCall, run_adds, record_calls, last_second}
use wb_trial_task.Window.Refinement.{run_adds-window_count}
use wb_trial_task.Window.Limits.{late_add_drops_newer_counts}
use wb_trial_task.Tests.Data.{phone, case, busy_engine, busy_engine-IsValid, add_call}

-- Three events in a window of two seconds; the first leaves it with the last.
abbrev calls : List AddCall
calls = add_call phone 10 ∷ add_call case 11 ∷ add_call phone 12 ∷ []

queries_of : List TopItem → List (Str × ℕ)
queries_of items = map (λ i. (i.query, i.score)) items

abbrev totals_after : Option Engine → List (Str × ℕ)
totals_after none = []
totals_after (some e) = e.totals

run_adds_test : totals_after (run_adds calls (new_engine (pos 2))) ≡ (case, 1) ∷ (phone, 1) ∷ []
unfolding run_adds new_engine add add_at record_query evict_expired_buckets evict_bucket
    claim_bucket remove_counts should_rebuild rebuild build_snapshot_state lookup insert erase
    Str-discrete
run_adds_test = refl

run_adds-window_count_example :
    (e' : Engine) × (run_adds calls (new_engine (pos 2)) ≡ some e')
    × ((q : Str)
        → get q e'.totals
          ≡ window_count q
              (window_or_default (pos 2))
              (last_second calls 0)
              (record_calls calls []))
run_adds-window_count_example = run_adds-window_count (pos 2) calls (
  refl,
  omega arith,
  omega arith,
  omega arith,
  (refl, omega arith, omega arith, omega arith, (refl, omega arith, omega arith, omega arith, tt)),
)

snapshot-IsTop_example :
    IsTop (limit_or_default (pos 1)) busy_engine (snapshot (pos 1) 5 busy_engine).0.items
    × ((snapshot (pos 1) 5 busy_engine).0.window_seconds ≡ 3)
    × ((snapshot (pos 1) 5 busy_engine).1.buckets ≡ busy_engine.buckets)
    × ((snapshot (pos 1) 5 busy_engine).1.totals ≡ busy_engine.totals)
    × ((snapshot (pos 1) 5 busy_engine).1.dirty ≡ false)
    × IsValid (snapshot (pos 1) 5 busy_engine).1
snapshot-IsTop_example = snapshot-IsTop (pos 1) 5 busy_engine busy_engine-IsValid

-- An event of second 9 reaches the bucket of second 12.
late_add_drops_newer_counts_example :
    (e' : Engine) × (add_at 9 phone 1 busy_engine ≡ some e')
    × (get_elem? e'.buckets 0 ≡ some (record { epoch_second = 9; counts = (phone, 1) ∷ [] }))
late_add_drops_newer_counts_example =
    late_add_drops_newer_counts 9 phone 1 busy_engine
      (record { epoch_second = 12; counts = (phone, 1) ∷ (case, 1) ∷ [] }) (omega arith)
      busy_engine-IsValid refl (omega arith)

-- The engine of the tests with its totals in another order.
abbrev turned_engine : Engine
turned_engine = record busy_engine { totals = (case, 1) ∷ (phone, 2) ∷ [] }

turned_engine-IsValid : IsValid turned_engine
unfolding lookup Str-discrete
turned_engine-IsValid = record {
  window_pos = omega arith;
  ring = refl;
  tallies = busy_engine-IsValid.tallies;
  totals_tally = record {
    distinct = (refl, (refl, tt));
    positive = (omega arith, (omega arith, tt));
  };
  balanced = λ q. ground arith;
  fresh = λ h. cc;
}

snapshot_unique_example :
    (snapshot (pos 2) 5 busy_engine).0.items ≡ (snapshot (pos 2) 9 turned_engine).0.items
snapshot_unique_example =
    snapshot_unique (pos 2) 5 9 busy_engine turned_engine busy_engine-IsValid turned_engine-IsValid
      (λ q. refl)
