-- ===== src/Stdio/Digits.antt =====
-- The digits that `buffer_print_unsigned` and `printf_unsigned` (source/kernel/core/stdio.c) make.
use waffle_os.Common.{
  ℕ, zero, suc, ◌+◌, ◌-◌, ◌*◌, ◌/◌, ◌%◌, ◌^◌, ◌≤◌, ◌<◌, ◌≡◌, inl, inr, List, [], ◌∷◌, reverse,
  arith, false, ltb, ◌==◌, if◌then◌else◌, length, Bool-cases, ap,
}
use Prim.Native.Nat.{suc-le-suc}
use native.Mathlib.Nat.{div-add-mod, pow-suc, mod-lt}

-- `g_HexChars[d]`
unfoldable pub hex_char : ℕ → ℕ
hex_char d = if ltb d 10 then b'0' + d else b'a' + (d - 10)

-- `temp`, the lowest digit first. The do-while loop makes at most `fuel` rounds here.
unfoldable pub digits : ℕ → ℕ → ℕ → List ℕ
unfolding hex_char
digits zero number radix = []
digits (suc fuel) number radix =
    let rest = digits fuel (number / radix) radix in
    hex_char (number % radix) ∷ (if number / radix == 0 then [] else rest)

-- `temp` has room for 32 digits, and `number` is below 2 ^ 64.
abbrev pub digit_fuel : ℕ
digit_fuel = 64

-- What `buffer_print_unsigned` prints: `temp` from its end.
unfoldable pub unsigned_chars : ℕ → ℕ → List ℕ
unfolding digits
unsigned_chars number radix = reverse (digits digit_fuel number radix)

-- The digit that a character stands for.
pub char_value : ℕ → ℕ
char_value c = if ltb c b'a' then c - b'0' else c - b'a' + 10

-- The number that a list of digits stands for, the lowest first.
abbrev pub value : ℕ → List ℕ → ℕ
value radix [] = 0
value radix (c ∷ cs) = char_value c + radix * value radix cs

char_value-hex_char : (d : ℕ) → d < 16 → char_value (hex_char d) ≡ d
unfolding char_value hex_char
char_value-hex_char d h = ground arith

half-lt : (n radix f : ℕ) → 2 ≤ radix → n < 2 ^ suc f → n / radix < 2 ^ f
half-lt n radix f h lt =
    let q = n / radix in
    let whole : radix * q + n % radix ≡ n = div-add-mod n radix in
    let twice : 2 * q ≤ radix * q = grind arith in
    let double : 2 ^ suc f ≡ 2 ^ f * 2 = pow-suc 2 f in omega arith

fuel_left : (fuel q : ℕ) → q < 2 ^ fuel → (q == 0) ≡ false → 0 < fuel
fuel_left zero q lt nonzero = ground arith
fuel_left (suc fuel) q lt nonzero = omega arith

-- Read back, the digits of a number of at most `fuel` bits are the number.
pub value-digits :
    (fuel n radix : ℕ)
    → 2 ≤ radix
    → radix ≤ 16
    → 0 < fuel
    → n < 2 ^ fuel
    → value radix (digits fuel n radix) ≡ n
unfolding digits
value-digits zero n radix h k pos lt = absurd (omega arith)
value-digits (suc fuel) n radix h k pos lt =
    let digit : char_value (hex_char (n % radix)) ≡ n % radix =
      char_value-hex_char (n % radix) (omega (arith, mod-lt n {m = radix} (omega arith))) in
    let whole : radix * (n / radix) + n % radix ≡ n = div-add-mod n radix in
    elim (Bool-cases (n / radix == 0)) [
      | inl last ↦
          let zero : n / radix ≡ 0 = ground arith in
          rw (last, digit) (omega (arith, ap (λ (q : ℕ). radix * q) zero))
      | inr more ↦
          let rest : value radix (digits fuel (n / radix) radix) ≡ n / radix =
            value-digits fuel (n / radix) radix h k
              (fuel_left fuel (n / radix) (half-lt n radix fuel h lt) more)
              (half-lt n radix fuel h lt) in
          rw (more, digit, rest) (omega arith)
    ]

eighth-lt : (n radix k : ℕ) → 8 ≤ radix → n < 8 ^ suc k → n / radix < 8 ^ k
eighth-lt n radix k h lt =
    let q = n / radix in
    let whole : radix * q + n % radix ≡ n = div-add-mod n radix in
    let eight : 8 * q ≤ radix * q = grind arith in
    let power : 8 ^ suc k ≡ 8 ^ k * 8 = pow-suc 8 k in omega arith

eighths_left : (k q : ℕ) → q < 8 ^ k → (q == 0) ≡ false → 0 < k
eighths_left zero q lt nonzero = ground arith
eighths_left (suc k) q lt nonzero = omega arith

length-digits-le :
    (k fuel n radix : ℕ) → 8 ≤ radix → 0 < k → n < 8 ^ k → length (digits fuel n radix) ≤ k
unfolding digits
length-digits-le zero fuel n radix h pos lt = absurd (omega arith)
length-digits-le (suc k) zero n radix h pos lt = omega arith
length-digits-le (suc k) (suc fuel) n radix h pos lt = elim (Bool-cases (n / radix == 0)) [
  | inl last ↦ rw last (omega arith)
  | inr more ↦
      let small = eighth-lt n radix k h lt in
      rw more (
        suc-le-suc (
          length-digits-le k fuel (n / radix) radix h (eighths_left k (n / radix) small more)
            small))
]

-- For the radices of the format machine (8, 10 and 16) and every 64-bit number, the digits in
-- `temp` read back as the number and are at most 22 (`temp` has room for 32).
digits_correct :
    (n radix : ℕ)
    → 8 ≤ radix
    → radix ≤ 16
    → n < 2 ^ 64
    → (value radix (digits digit_fuel n radix) ≡ n) × (length (digits digit_fuel n radix) ≤ 22)
digits_correct n radix h k lt = (
  value-digits 64 n radix (omega arith) k (omega arith) lt,
  length-digits-le 22 64 n radix h (omega arith) (omega arith),
)
