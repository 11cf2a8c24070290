-- ===== src/Kafka/Backoff.antt =====
-- The backoff doubles from the base up to the maximum.
use wb_trial_task.Common.{
  ℕ, zero, suc, ◌*◌, ◌^◌, ◌≤◌, ◌<◌, ◌≡◌, arith, Bool-cases, inl, inr, pos, leb, min,
}
use wb_trial_task.Kafka.Settings.{double, double_up_to, backoff}

double-pos : (d : ℕ) → d < 2 ^ 62 → double (pos d) ≡ pos (2 * d)
unfolding double
double-pos d h = ground arith

two_pow_pos : (n : ℕ) → 1 ≤ 2 ^ n
two_pow_pos zero = omega arith
two_pow_pos (suc n) = omega (arith, two_pow_pos n)

le_mul : (d k : ℕ) → 1 ≤ k → d ≤ d * k
le_mul d zero h = elim h [ ]
le_mul d (suc k) h = grind arith

-- One doubling more.
two_pow_suc : (d n : ℕ) → d * 2 ^ suc n ≡ 2 * d * 2 ^ n
two_pow_suc d n = grind arith

double_up_to-min :
    (n d max : ℕ)
    → d ≤ max
    → 0 < max
    → max < 2 ^ 62
    → double_up_to n (pos d) (pos max) ≡ pos (min (d * 2 ^ n) max)
unfolding double_up_to
double_up_to-min zero d max le p small = ground arith
double_up_to-min (suc n) d max le p small = elim (Bool-cases (leb max (2 * d))) [
  | inl over ↦ ground (arith, double-pos d, two_pow_suc d n, le_mul (2 * d) (2 ^ n) (two_pow_pos n))
  | inr under ↦ ground (arith, double-pos d, two_pow_suc d n, double_up_to-min n (2 * d) max)
]

-- For a positive base up to a maximum below 2^62 nanoseconds, the delay before retry number
-- `attempt` is the base times `2 ^ attempt`, or the maximum where that is smaller: the product
-- never wraps around.
pub backoff-min :
    (attempt base max : ℕ)
    → 0 < base
    → base ≤ max
    → max < 2 ^ 62
    → backoff attempt (pos base) (pos max) ≡ pos (min (base * 2 ^ attempt) max)
unfolding backoff
backoff-min zero base max p le small = ground arith
backoff-min (suc n) base max p le small = ground (arith, double_up_to-min (suc n) base max)
