-- ===== src/Base/Int.antt =====
-- C `int` results as integers: a count or a size, or a negative errno.
use Prim.Native.Nat.{ℕ, zero, suc, ◌+◌, ◌-◌, ◌^◌}
use mathlib.Core.Bool.{Bool, true, false}
use s3blk.Base.Tests.{ltb, ◌==◌, if◌then◌else◌}

-- `negsuc n` is -(n + 1).
pub data ℤ : Type 0 where
  pos : ℕ → ℤ
  negsuc : ℕ → ℤ

-- `-n`.
abbrev pub minus : ℕ → ℤ
minus zero = pos 0
minus (suc n) = negsuc n

-- The test `ret < 0`.
abbrev pub is_neg : ℤ → Bool
is_neg (pos n) = false
is_neg (negsuc n) = true

-- The size that a result which is not negative stands for.
abbrev pub pos_part : ℤ → ℕ
pos_part (pos n) = n
pos_part (negsuc n) = 0

-- The test `ret == -e`, for a positive `e`.
abbrev pub is_errno : ℕ → ℤ → Bool
is_errno e (pos n) = false
is_errno e (negsuc n) = n + 1 == e

-- A `__u32` stored in an `int`, and an `int` used as a `size_t`.
abbrev pub int_of_u32 : ℕ → ℤ
int_of_u32 x = if ltb x (2 ^ 31) then pos x else minus (2 ^ 32 - x)

abbrev pub size_of_int : ℤ → ℕ
size_of_int (pos n) = n
size_of_int (negsuc n) = 2 ^ 64 - (n + 1)

-- The errno values that the sources return, negated.
abbrev pub eperm : ℤ
eperm = minus 1

abbrev pub eio : ℤ
eio = minus 5

abbrev pub eagain : ℤ
eagain = minus 11

abbrev pub enomem : ℤ
enomem = minus 12

abbrev pub efault : ℤ
efault = minus 14

abbrev pub einval : ℤ
einval = minus 22

abbrev pub eproto : ℤ
eproto = minus 71

abbrev pub etimedout : ℤ
etimedout = minus 110
