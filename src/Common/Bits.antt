-- ===== src/Common/Bits.antt =====
-- Setting a bit that is not set: `bit_or` with a power of two as a sum.
use Prim.Native.Nat.{ℕ, zero, suc, ◌+◌, ◌*◌, ◌/◌, ◌%◌, ◌≤◌, max, bit_or, digits, bit_or-bitwise}
use mathlib.Core.Path.{◌≡◌, refl}
use native.Mathlib.Omega.{arith}

or_digits : ℕ → ℕ → ℕ → ℕ
or_digits n a b = digits (λ b. b) max n a b

-- Any number of digits to go that is large enough does.
or_digits_enough : (n m a b : ℕ) → a ≤ n → a ≤ m → or_digits n a b ≡ or_digits m a b
unfolding or_digits
or_digits_enough zero zero zero b h k = refl
or_digits_enough zero (suc m) zero b h k = refl
or_digits_enough (suc n) zero zero b h k = refl
or_digits_enough (suc n) (suc m) zero b h k = refl
or_digits_enough zero m (suc a) b h k = absurd (omega arith)
or_digits_enough (suc n) zero (suc a) b h k = absurd (omega arith)
or_digits_enough (suc n) (suc m) (suc a) b h k =
    omega (arith, or_digits_enough n m (suc a / 2) (b / 2) (omega arith) (omega arith))

zero-bit_or : (b : ℕ) → bit_or 0 b ≡ b
zero-bit_or b = bit_or-bitwise 0 b

-- The lowest digit.
bit_or_digit : (a b : ℕ) → bit_or a b ≡ bit_or (a / 2) (b / 2) * 2 + max (a % 2) (b % 2)
unfolding or_digits
bit_or_digit zero b = omega (arith, zero-bit_or b, zero-bit_or (b / 2))
bit_or_digit (suc a) b = omega (
  arith,
  bit_or-bitwise (suc a) b,
  bit_or-bitwise (suc a / 2) (b / 2),
  or_digits_enough a (suc a / 2) (suc a / 2) (b / 2) (omega arith) (omega arith),
)

bit_or-zero_below : (n a : ℕ) → a ≤ n → bit_or a 0 ≡ a
bit_or-zero_below n zero h = refl
bit_or-zero_below zero (suc a) h = absurd (omega arith)
bit_or-zero_below (suc n) (suc a) h =
    omega (arith, bit_or_digit (suc a) 0, bit_or-zero_below n (suc a / 2) (omega arith))

bit_or-zero : (a : ℕ) → bit_or a 0 ≡ a
bit_or-zero a = bit_or-zero_below a a (omega arith)

-- The two lowest bits, set in a multiple of four.
pub bit_or_low : (a : ℕ) → a % 4 ≡ 0 → bit_or (bit_or a 1) 2 ≡ a + 3
bit_or_low a h =
    let one : bit_or a 1 ≡ a + 1 = omega (arith, bit_or_digit a 1, bit_or-zero (a / 2)) in
    rw one (
      omega (
        arith,
        bit_or_digit (a + 1) 2,
        bit_or_digit ((a + 1) / 2) 1,
        bit_or-zero ((a + 1) / 2 / 2),
      ))
