-- ===== src/Base/Ints.antt =====
-- Signed integers over the native numbers, under the library's names, and the numbers that `as` makes
-- of them.
use Prim.Native.Nat.{ℕ, ◌-◌, ◌%◌, ◌^◌}
use mathlib.Core.Bool.{Bool, false, not}
use containerd_rs.Base.Tests.{ltb, ◌==◌}

pub data ℤ : Type 0 where
  pos negsuc : ℕ → ℤ

-- `i == n`, `i > 0` and `i != 0`
abbrev pub is_num : ℕ → ℤ → Bool
is_num n (pos m) = m == n
is_num n (negsuc m) = false

abbrev pub is_positive : ℤ → Bool
is_positive (pos n) = ltb 0 n
is_positive (negsuc n) = false

abbrev pub is_nonzero : ℤ → Bool
is_nonzero i = not (is_num 0 i)

-- `i as u64` of an i64, and `i as u32`, which both wrap around.
abbrev pub as_u64 : ℤ → ℕ
as_u64 (pos n) = n % 2 ^ 64
as_u64 (negsuc n) = 2 ^ 64 - 1 - n % 2 ^ 64

abbrev pub as_u32 : ℤ → ℕ
as_u32 (pos n) = n % 2 ^ 32
as_u32 (negsuc n) = 2 ^ 32 - 1 - n % 2 ^ 32
