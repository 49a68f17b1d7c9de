-- ===== src/Base/Int.antt =====
-- Machine integers. An `int32` is its bit pattern, a number below 2 ^ 32.
use Prim.Native.Nat.{ℕ, ◌+◌, ◌%◌, ◌^◌}
use mathlib.Core.Bool.{Bool}
use kwarm.Base.Tests.{ltb}

-- Go's `int`, where a negative value can reach the code; `negsuc n` is -(n + 1).
pub data ℤ : Type 0 where
  pos : ℕ → ℤ
  negsuc : ℕ → ℤ

-- `int32(n)` of a length.
abbrev pub to_int32 : ℕ → ℕ
to_int32 n = n % 2 ^ 32

-- `n++` of an `int32`
abbrev pub inc32 : ℕ → ℕ
inc32 n = (n + 1) % 2 ^ 32

-- `a < b` of two `int32`: the sign bit is moved out of the way.
abbrev pub slt32 : ℕ → ℕ → Bool
slt32 a b = ltb ((a + 2 ^ 31) % 2 ^ 32) ((b + 2 ^ 31) % 2 ^ 32)
