-- ===== src/Base/Bits.antt =====
-- `|` of disjoint fields, `&` with a low mask and `>>`, as arithmetic. The native operations stand
-- for a recursion on binary digits with fuel; one equation for the lowest digit drops the fuel.
use Prim.Native.Nat.{
  ℕ, zero, suc, ◌+◌, ◌-◌, ◌*◌, ◌/◌, ◌%◌, ◌^◌, ◌≤◌, ◌<◌, min, max, bit_and, bit_or, digits, bitwise,
  bit_and-bitwise, bit_or-bitwise,
}
use mathlib.Core.Path.{◌≡◌, refl, ap}
use mathlib.Core.Bool.{Bool, true, ◌&&◌}
use native.Mathlib.Nat.{le_refl, pow-suc, one-le-pow}
use native.Mathlib.Omega.{arith}

module _ (z : ℕ → ℕ) (f : ℕ → ℕ → ℕ) where
  -- Any two amounts of fuel that reach the first number's digits agree.
  digits_enough : (n m a b : ℕ) → a ≤ n → a ≤ m → digits z f n a b ≡ digits z f m a b
  digits_enough zero zero a b p q = refl
  digits_enough zero (suc m) zero b p q = refl
  digits_enough zero (suc m) (suc a) b p q = absurd (omega arith)
  digits_enough (suc n) zero zero b p q = refl
  digits_enough (suc n) zero (suc a) b p q = absurd (omega arith)
  digits_enough (suc n) (suc m) zero b p q = refl
  digits_enough (suc n) (suc m) (suc a) b p q =
      rw (digits_enough n m (suc a / 2) (b / 2) (omega arith) (omega arith))

  bitwise_step :
      (a b : ℕ)
      → bitwise z f (suc a) b ≡ bitwise z f (suc a / 2) (b / 2) * 2 + f (suc a % 2) (b % 2)
  bitwise_step a b =
      omega (arith, digits_enough a (suc a / 2) (suc a / 2) (b / 2) (omega arith) (le_refl _))

or_step : (a b : ℕ) → bit_or a b ≡ bit_or (a / 2) (b / 2) * 2 + max (a % 2) (b % 2)
or_step zero b = simp bit_or-bitwise (omega arith)
or_step (suc a) b = simp bit_or-bitwise (bitwise_step (λ y. y) max a b)

and_step : (a b : ℕ) → bit_and a b ≡ bit_and (a / 2) (b / 2) * 2 + min (a % 2) (b % 2)
and_step zero b = simp bit_and-bitwise (omega arith)
and_step (suc a) b = simp bit_and-bitwise (bitwise_step (λ y. 0) min a b)

and_zero_fuel : (n a : ℕ) → a ≤ n → bit_and a 0 ≡ 0
and_zero_fuel n zero h = refl
and_zero_fuel zero (suc a) h = absurd (omega arith)
and_zero_fuel (suc n) (suc a) h =
    omega (arith, and_step (suc a) 0, and_zero_fuel n (suc a / 2) (omega arith))

twice_field : (q k : ℕ) → q * 2 ^ suc k ≡ 2 * (q * 2 ^ k)
twice_field q k = omega (arith, ap (λ (t : ℕ). q * t) (pow-suc 2 k))

-- `lo | hi << k` is a sum where `lo` has k bits.
pub or_shifted : (k lo hi : ℕ) → lo < 2 ^ k → bit_or lo (hi * 2 ^ k) ≡ lo + hi * 2 ^ k
or_shifted zero zero hi h = simp bit_or-bitwise (omega arith)
or_shifted zero (suc lo) hi h = absurd (omega arith)
or_shifted (suc k) lo hi h = ground (
  arith,
  or_step lo (hi * 2 ^ suc k),
  twice_field hi k,
  pow-suc 2 k,
  or_shifted k (lo / 2) hi (omega (arith, pow-suc 2 k)),
)

or_zero_fuel : (n a : ℕ) → a ≤ n → bit_or a 0 ≡ a
or_zero_fuel n zero h = refl
or_zero_fuel zero (suc a) h = absurd (omega arith)
or_zero_fuel (suc n) (suc a) h =
    omega (arith, or_step (suc a) 0, or_zero_fuel n (suc a / 2) (omega arith))

-- `hi << k | lo`, the other way round.
pub shifted_or : (k hi lo : ℕ) → lo < 2 ^ k → bit_or (hi * 2 ^ k) lo ≡ hi * 2 ^ k + lo
shifted_or zero hi zero h = omega (arith, or_zero_fuel (hi * 2 ^ 0) (hi * 2 ^ 0) (le_refl _))
shifted_or zero hi (suc lo) h = absurd (omega arith)
shifted_or (suc k) hi lo h = ground (
  arith,
  or_step (hi * 2 ^ suc k) lo,
  twice_field hi k,
  pow-suc 2 k,
  shifted_or k hi (lo / 2) (omega (arith, pow-suc 2 k)),
)

masked : (k q r : ℕ) → r < 2 ^ k → bit_and (q * 2 ^ k + r) (2 ^ k - 1) ≡ r
masked zero q r h = omega (arith, and_zero_fuel (q * 2 ^ 0 + r) (q * 2 ^ 0 + r) (le_refl _))
masked (suc k) q r h = ground (
  arith,
  and_step (q * 2 ^ suc k + r) (2 ^ suc k - 1),
  twice_field q k,
  pow-suc 2 k,
  one-le-pow k 2,
  masked k q (r / 2) (omega (arith, pow-suc 2 k)),
)

-- `a & (2 ^ k - 1)` is the remainder.
pub and_mask : (k a : ℕ) → bit_and a (2 ^ k - 1) ≡ a % 2 ^ k
and_mask k a = ground (arith, one-le-pow k 2, masked k (a / 2 ^ k) (a % 2 ^ k))

-- Over a small range, check every value by evaluation.
abbrev pub all_below : ℕ → (ℕ → Bool) → Bool
all_below zero p = true
all_below (suc n) p = p n && all_below n p

pub all_below_sound : (n : ℕ) (p : ℕ → Bool) (x : ℕ) → all_below n p ≡ true → x < n → p x ≡ true
all_below_sound zero p x h lt = absurd (omega arith)
all_below_sound (suc n) p x h lt = ground (arith, all_below_sound n p x)
