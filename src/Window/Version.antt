-- ===== src/Window/Version.antt =====
-- internal/engine/window/snapshot.go: a counter that the service does not use yet. Its atomic calls are
-- steps on the number, which wraps around.
use wb_trial_task.Common.{ℕ, zero, suc, ◌+◌, ◌<◌, ◌^◌, ◌≡◌, ap, ◌∙◌, arith, ℤ, pos, add_int64}

pub record AtomicVersion : Type 0 where
  pub v : ℤ

unfoldable pub next : AtomicVersion → ℤ × AtomicVersion
next a = let v = add_int64 a.v (pos 1) in (v, record { v = v })

abbrev pub current : AtomicVersion → ℤ
current a = a.v

-- The counter after a number of calls of `Next`.
abbrev after : ℕ → AtomicVersion → AtomicVersion
after zero a = a
after (suc n) a = after n (next a).1

-- From a version that is not negative, `n` calls of `Next` raise the counter by `n`, up to the end of
-- `int64`.
pub current-after :
    (n start : ℕ)
    → start + n < 2 ^ 63
    → current (after n (record { v = pos start })) ≡ pos (start + n)
unfolding next
current-after zero start h = ap pos (omega arith)
current-after (suc n) start h =
    let step : add_int64 (pos start) (pos 1) ≡ pos (start + 1) = ground arith in
    ap (λ v. current (after n (record { v = v }))) step
    ∙ current-after n (start + 1) (omega arith)
    ∙ ap pos (omega arith)
