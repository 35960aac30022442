-- ===== src/Prelude/Word.antt =====
-- Machine words. A word is a plain number; the wrap-around is written out where the code can meet
-- it.
use Prim.Native.Nat.{ℕ, ◌+◌, ◌-◌, ◌%◌, ◌^◌}
use mathlib.Core.Bool.{Bool}
use so_realtime.Prelude.Tests.{ltb}

-- `-1` converted to `uint64_t`
abbrev pub minus_one : ℕ
minus_one = 2 ^ 64 - 1

abbrev pub add64 : ℕ → ℕ → ℕ
add64 a b = (a + b) % 2 ^ 64

abbrev pub sub64 : ℕ → ℕ → ℕ
sub64 a b = (a + 2 ^ 64 - b) % 2 ^ 64

-- `rt >= 0` for a 64-bit word read as `int64_t`
abbrev pub nonneg64 : ℕ → Bool
nonneg64 w = ltb w (2 ^ 63)
