-- ===== src/Common/Decimal.antt =====
-- Decimal numbers: `%d` of Go's `fmt`, and `Atoi` of `strconv`, which is `ParseInt` of base 10 and
-- 64 bits on the platforms of the service.
use Prim.Native.Nat.{ℕ, zero, suc, ◌+◌, ◌-◌, ◌*◌, ◌/◌, ◌%◌, ◌^◌, ◌≤◌, ◌<◌}
use mathlib.Core.Path.{◌≡◌, refl}
use mathlib.Core.Bool.{true, false, ◌&&◌}
use mathlib.Core.List.{[], ◌∷◌}
use mathlib.Core.Option.{Option, none, some}
use native.Mathlib.Omega.{arith}
use wb_trial_task.Common.Tests.{ltb, leb, ◌==◌, if◌then◌else◌}
use wb_trial_task.Common.Int.{ℤ, pos, negsuc}
use wb_trial_task.Common.Text.{Str}

-- The digits of a number before those of `out`, in at most `rounds + 1` divisions by ten.
unfoldable pub digits : ℕ → ℕ → Str → Str
digits zero n out = (b'0' + n % 10) ∷ out
digits (suc rounds) n out = elim (ltb n 10) [
  | true ↦ (b'0' + n) ∷ out
  | false ↦ digits rounds (n / 10) ((b'0' + n % 10) ∷ out)
]

-- `%d`. A number has no more divisions by ten than it counts.
unfoldable pub decimal : ℕ → Str
unfolding digits
decimal n = digits n n []

unfoldable pub decimal_int : ℤ → Str
unfolding decimal
decimal_int (pos n) = decimal n
decimal_int (negsuc n) = b'-' ∷ decimal (suc n)

-- The number that decimal digits spell behind `n`; none where a rune is no digit.
unfoldable pub read_digits : ℕ → Str → Option ℕ
read_digits n [] = some n
read_digits n (c ∷ s) = elim (leb b'0' c && leb c b'9') [
  | true ↦ read_digits (n * 10 + (c - b'0')) s
  | false ↦ none
]

-- The value of digits, with the bound of `int64` for its sign.
unfoldable pub read_signed : (ℕ → Option ℤ) → Str → Option ℤ
read_signed bound [] = none
read_signed bound (c ∷ s) = elim (read_digits 0 (c ∷ s)) [ none ↦ none | some n ↦ bound n ]

abbrev pub positive : ℕ → Option ℤ
positive n = if ltb n (2 ^ 63) then some (pos n) else none

abbrev pub negative : ℕ → Option ℤ
negative n = if n == 0 then some (pos 0) else if leb n (2 ^ 63) then some (negsuc (n - 1)) else none

-- `strconv.Atoi`; none is its error, of the syntax or of the range
unfoldable pub atoi : Str → Option ℤ
unfolding read_signed read_digits
atoi [] = none
atoi (c ∷ s) =
    if c == b'-'
    then read_signed negative s
    else if c == b'+'
    then read_signed positive s
    else read_signed positive (c ∷ s)

read_digits-digits :
    (rounds n : ℕ) (out : Str)
    → n ≤ rounds
    → read_digits 0 (digits rounds n out) ≡ read_digits n out
unfolding read_digits digits
read_digits-digits zero n out le = ground arith
read_digits-digits (suc rounds) n out le =
    ground (arith, read_digits-digits rounds (n / 10) ((b'0' + n % 10) ∷ out))

-- The first rune of a number's digits is a digit.
StartsWithDigit : Str → Type 0
StartsWithDigit [] = ⊥
StartsWithDigit (c ∷ s) = (b'0' ≤ c) × (c ≤ b'9')

digits-StartsWithDigit : (rounds n : ℕ) (out : Str) → StartsWithDigit (digits rounds n out)
unfolding digits StartsWithDigit
digits-StartsWithDigit zero n out = (omega arith, omega arith)
digits-StartsWithDigit (suc rounds) n out =
    ground (arith, digits-StartsWithDigit rounds (n / 10) ((b'0' + n % 10) ∷ out))

atoi_digit : (s : Str) → StartsWithDigit s → atoi s ≡ read_signed positive s
unfolding atoi StartsWithDigit
atoi_digit [] h = absurd h
atoi_digit (c ∷ s) h = ground arith

read_signed_nonempty :
    (s : Str)
    → StartsWithDigit s
    → (n : ℕ) → read_digits 0 s ≡ some n
    → read_signed positive s ≡ positive n
unfolding read_signed StartsWithDigit
read_signed_nonempty [] h n e = absurd h
read_signed_nonempty (c ∷ s) h n e = rw (e, read_signed) refl

-- `Atoi` reads back what `%d` prints.
pub atoi-decimal : (n : ℕ) → n < 2 ^ 63 → atoi (decimal n) ≡ some (pos n)
unfolding decimal
atoi-decimal n h =
    let start = digits-StartsWithDigit n n [] in
    let value : read_digits 0 (digits n n []) ≡ some n =
      rw (read_digits-digits n n [] (omega arith)) (unfold read_digits in refl) in
    rw (atoi_digit (digits n n []) start, read_signed_nonempty (digits n n []) start n value)
      (ground arith)
