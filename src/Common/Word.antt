-- ===== src/Common/Word.antt =====
-- Machine integers: Go's `int64`, a signed number, by its 64 bits, and `uint64`, a number below
-- 2^64.
use Prim.Native.Nat.{ℕ, suc, ◌+◌, ◌-◌, ◌%◌, ◌^◌}
use wb_trial_task.Common.Tests.{ltb, if◌then◌else◌}
use wb_trial_task.Common.Int.{ℤ, pos, negsuc}

abbrev pub to_word : ℤ → ℕ
to_word (pos n) = n % 2 ^ 64
to_word (negsuc n) = 2 ^ 64 - suc (n % 2 ^ 64)

abbrev pub from_word : ℕ → ℤ
from_word r = if ltb r (2 ^ 63) then pos r else negsuc (2 ^ 64 - suc r)

-- `a + b` on `int64`, which wraps around
abbrev pub add_int64 : ℤ → ℤ → ℤ
add_int64 a b = from_word ((to_word a + to_word b) % 2 ^ 64)

-- `n++` on `uint64`
abbrev pub increment : ℕ → ℕ
increment n = (n + 1) % 2 ^ 64
