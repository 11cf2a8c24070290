-- ===== src/Http/Numbers.antt =====
-- handlers_top.go: the numbers that `GET /api/v1/top` accepts.
use wb_trial_task.Common.{
  ℕ, ◌≡◌, refl, false, none, some, Str, ◌≤◌, ◌<◌, ◌^◌, ℤ, pos, negsuc, arith, decimal, atoi,
  atoi-decimal, is_empty, Option-cases, Bool-cases, inl, inr, ◌⊎◌, ltb, ◌||◌, [], ◌∷◌,
}
use wb_trial_task.Http.TopHandlers.{parse_top_n}

atoi-nonempty : (s : Str) (n : ℤ) → atoi s ≡ some n → is_empty s ≡ false
unfolding atoi
atoi-nonempty [] n h = absurd (ground arith)
atoi-nonempty (c ∷ s) n h = refl

-- Whatever the parameter is, the number that the handler goes on with is from 1 to 100.
pub parse_top_n-InRange :
    (raw : Str) (n : ℤ) → parse_top_n raw ≡ some n → (m : ℕ) × (n ≡ pos m) × (1 ≤ m) × (m ≤ 100)
unfolding parse_top_n
parse_top_n-InRange raw n h = elim (Bool-cases (is_empty raw)) [
  | inl empty ↦ (10, ground (arith, empty), omega arith, omega arith)
  | inr full ↦ elim (Option-cases (atoi raw)) [
    | inl failure ↦ absurd (ground (arith, full, failure))
    | inr (pos m, read) ↦
        (m, ground (arith, full, read), ground (arith, full, read), ground (arith, full, read))
    | inr (negsuc m, read) ↦ absurd (ground (arith, full, read))
  ]
]

-- A number in decimal digits is accepted as it is when it is from 1 to 100, and refused otherwise.
pub parse_top_n-decimal :
    (n : ℕ)
    → n < 2 ^ 63
    → ((1 ≤ n) × (n ≤ 100) × (parse_top_n (decimal n) ≡ some (pos n)))
      ⊎ (((n ≡ 0) ⊎ (100 < n)) × (parse_top_n (decimal n) ≡ none))
unfolding parse_top_n
parse_top_n-decimal n small =
    let read = atoi-decimal n small in
    let full = atoi-nonempty (decimal n) (pos n) read in
    elim (Bool-cases (ltb n 1 || ltb 100 n)) [
      | inl out ↦ inr (ground (arith, out), rw (full, read, parse_top_n) (ground (arith, out)))
      | inr in_range ↦ inl (
        ground (arith, in_range),
        ground (arith, in_range),
        rw (full, read, parse_top_n) (ground (arith, in_range)),
      )
    ]
