-- ===== src/Strings/Decimal.antt =====
-- `int_to_str` (source/kernel/libs/string.c) gives the characters that `vsnprintf` prints.
use waffle_os.Common.{
  ℕ, zero, suc, ◌-◌, ◌*◌, ◌/◌, ◌^◌, ◌≤◌, ◌<◌, ◌≡◌, ◌≢◌, refl, true, false, [], ◌∷◌, ◌++◌, some,
  ◌==◌, ltb, leb, arith, ap, reverse, reverse-append, inl, inr, Bool-cases,
}
use native.Mathlib.Nat.{pow-suc}
use waffle_os.Strings.{decimal_loop, swap_all, int_to_str}
use waffle_os.Stdio.Digits.{hex_char, digits, unsigned_chars}
use waffle_os.Stdio.Format.{signed_chars}
use waffle_os.Strings.Reversal.{swap_all-eq-reverse}

zero_of : (n : ℕ) → (n == 0) ≡ true → n ≡ 0
zero_of n e = ground arith

decimal_loop_zero : (fuel : ℕ) → decimal_loop fuel 0 ≡ []
unfolding decimal_loop
decimal_loop_zero zero = refl
decimal_loop_zero (suc fuel) = refl

decimal_loop-digits :
    (fuel fuel' num : ℕ)
    → 0 < num
    → num < 10 ^ fuel
    → fuel ≤ fuel'
    → decimal_loop fuel num ≡ digits fuel' num 10
unfolding decimal_loop digits hex_char
decimal_loop-digits zero fuel' num pos small more = absurd (omega (arith, small))
decimal_loop-digits (suc fuel) zero num pos small more = absurd (omega arith)
decimal_loop-digits (suc fuel) (suc fuel') num pos small more =
    let small' : num < 10 * 10 ^ fuel = omega (arith, pow-suc 10 fuel) in
    elim (Bool-cases (num / 10 == 0)) [
      | inl last ↦
          ground (arith, decimal_loop_zero fuel, ap (decimal_loop fuel) (zero_of (num / 10) last))
      | inr next ↦
          let rest =
            decimal_loop-digits fuel fuel' (num / 10) (ground arith) (omega arith) (omega arith) in
          ground (arith, rest)
    ]

magnitude_chars :
    (num : ℕ) → 0 < num → num < 2 ^ 31 → reverse (decimal_loop 10 num) ≡ unsigned_chars num 10
unfolding unsigned_chars
magnitude_chars num pos small =
    ap reverse (decimal_loop-digits 10 64 num pos (omega arith) (omega arith))

int_to_str_negative :
    (num : ℕ)
    → 2 ^ 31 < num
    → int_to_str num ≡ some (swap_all (decimal_loop 10 (2 ^ 32 - num) ++ b'-' ∷ []))
unfolding int_to_str
int_to_str_negative num big =
    let a : (num == 0) ≡ false = ground arith in
    let b : (num == 2 ^ 31) ≡ false = ground arith in
    let c : leb (2 ^ 31) num ≡ true = ground arith in rw (a, b, c)

int_to_str_positive :
    (num : ℕ) → 0 < num → num < 2 ^ 31 → int_to_str num ≡ some (swap_all (decimal_loop 10 num))
unfolding int_to_str
int_to_str_positive num pos small =
    let a : (num == 0) ≡ false = ground arith in
    let b : (num == 2 ^ 31) ≡ false = ground arith in
    let c : leb (2 ^ 31) num ≡ false = ground arith in rw (a, b, c)

signed_chars_negative :
    (num : ℕ) → 2 ^ 31 ≤ num → signed_chars 32 num 10 ≡ b'-' ∷ unsigned_chars (2 ^ 32 - num) 10
unfolding signed_chars
signed_chars_negative num big = let c : leb (2 ^ (32 - 1)) num ≡ true = ground arith in rw c

signed_chars_positive : (num : ℕ) → num < 2 ^ 31 → signed_chars 32 num 10 ≡ unsigned_chars num 10
unfolding signed_chars
signed_chars_positive num small = let c : leb (2 ^ (32 - 1)) num ≡ false = ground arith in rw c

int_to_str_zero : int_to_str 0 ≡ some (signed_chars 32 0 10)
unfolding int_to_str signed_chars unsigned_chars digits
int_to_str_zero = refl

-- For every `int` but the least, `int_to_str` and the `%d` of `vsnprintf` give the same characters:
-- the loops and the swaps in place of the one, and the buffer printed from its end of the other.
pub int_to_str-signed_chars :
    (num : ℕ) → num < 2 ^ 32 → num ≢ 2 ^ 31 → int_to_str num ≡ some (signed_chars 32 num 10)
int_to_str-signed_chars num small defined = elim (Bool-cases (num == 0)) [
  | inl none_left ↦ rw (zero_of num none_left) int_to_str_zero
  | inr some_left ↦ elim (Bool-cases (ltb num (2 ^ 31))) [
    | inl positive ↦ rw (
      int_to_str_positive num (ground arith) (ground arith),
      signed_chars_positive num (ground arith),
      swap_all-eq-reverse (decimal_loop 10 num),
      magnitude_chars num (ground arith) (ground arith),
    )
    | inr negative ↦
        let m = 2 ^ 32 - num in
        let big : 2 ^ 31 < num = ground arith in
        rw (
          int_to_str_negative num big,
          signed_chars_negative num (omega arith),
          swap_all-eq-reverse (decimal_loop 10 m ++ b'-' ∷ []),
          reverse-append (decimal_loop 10 m) (b'-' ∷ []),
          magnitude_chars m (omega arith) (omega arith),
        )
  ]
]
