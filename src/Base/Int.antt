-- ===== src/Base/Int.antt =====
-- Signed integers over the native numbers, under the library's names (its ℤ stands on unary ℕ).
use Prim.Native.Nat.{ℕ, suc, ◌+◌, ◌-◌, ◌*◌, ◌^◌, ◌%◌}
use mathlib.Core.Bool.{Bool}
use qw.Base.Tests.{ltb, if◌then◌else◌}

-- `negsuc n` is -(n + 1).
pub data ℤ : Type 0 where
  pos : ℕ → ℤ
  negsuc : ℕ → ℤ

abbrev pub pos_part : ℤ → ℕ
pos_part (pos n) = n
pos_part (negsuc n) = 0

abbrev pub neg_part : ℤ → ℕ
neg_part (pos n) = 0
neg_part (negsuc n) = suc n

abbrev pub ltb_ℤ : ℤ → ℤ → Bool
ltb_ℤ a b = ltb (pos_part a + neg_part b) (pos_part b + neg_part a)

-- The number that a pattern of `w + 1` bits stands for, in two's complement.
abbrev pub signed : ℕ → ℕ → ℤ
signed w x =
    if ltb (x % 2 ^ suc w) (2 ^ w)
    then pos (x % 2 ^ suc w)
    else negsuc (2 ^ suc w - x % 2 ^ suc w - 1)

-- The 32 bits of an `int`.
abbrev pub bits32 : ℤ → ℕ
bits32 (pos n) = n % 2 ^ 32
bits32 (negsuc n) = 2 ^ 32 - 1 - n % 2 ^ 32

-- `(size_t)z` of an `int`.
abbrev pub to_size_t : ℤ → ℕ
to_size_t (pos n) = n
to_size_t (negsuc n) = 2 ^ 64 - 1 - n

-- `(int)x` of an unsigned number.
abbrev pub to_int32 : ℕ → ℤ
to_int32 x = signed 31 x

-- A sum of two `int`, and a product with a count, which wrap.
abbrev pub add_int32 : ℤ → ℤ → ℤ
add_int32 a b = to_int32 (bits32 a + bits32 b)

abbrev pub mul_int32 : ℤ → ℕ → ℤ
mul_int32 a k = to_int32 (bits32 a * k)
