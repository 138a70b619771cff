-- ===== src/Base/Int64.antt =====
-- Go's `int64` and `int` as bit patterns below 2 ^ 64, with their wrap-around.
use Prim.Native.Nat.{ℕ, ◌+◌, ◌-◌, ◌*◌, ◌/◌, ◌%◌, ◌^◌}
use mathlib.Core.Bool.{Bool, not, ◌&&◌}
use unseat.Base.Tests.{leb, ltb, if◌then◌else◌}

abbrev pub int64_mod : ℕ
int64_mod = 2 ^ 64

abbrev pub is_negative : ℕ → Bool
is_negative a = leb (2 ^ 63) a

-- `a > 0`
abbrev pub is_positive : ℕ → Bool
is_positive a = not (is_negative a) && ltb 0 a

abbrev pub negate64 : ℕ → ℕ
negate64 a = (2 ^ 64 - a) % 2 ^ 64

unfoldable pub add64 : ℕ → ℕ → ℕ
add64 a b = (a + b) % 2 ^ 64

unfoldable pub mul64 : ℕ → ℕ → ℕ
mul64 a b = a * b % 2 ^ 64

-- `a / b`, which cuts towards zero; the callers rule out a zero divisor.
unfoldable pub div64 : ℕ → ℕ → ℕ
div64 a b =
    if is_negative a
    then (if is_negative b then negate64 a / negate64 b % 2 ^ 64 else negate64 (negate64 a / b))
    else if is_negative b
    then negate64 (a / negate64 b)
    else a / b
