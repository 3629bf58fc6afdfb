-- ===== src/Strings/Hex.antt =====
-- `int_to_hex_str` (source/kernel/libs/string.c) writes the eight hexadecimal digits of a word.
use waffle_os.Common.{
  ℕ, zero, suc, ◌+◌, ◌-◌, ◌*◌, ◌/◌, ◌%◌, ◌^◌, ◌≤◌, ◌<◌, ◌≡◌, refl, List, some, arith, ltb,
  if◌then◌else◌, set, get_or, length, length-set, get_or-set_self, get_or-set_ne, ◌∙◌,
}
use native.Mathlib.Nat.{pow-suc}
use waffle_os.Strings.{upper_hex, hex_loop, int_to_hex_str}

-- The digit that a character stands for.
pub hex_digit : ℕ → ℕ
hex_digit c = if ltb c b'A' then c - b'0' else c - b'A' + 10

-- The number that the first `n` characters of the buffer stand for.
pub read_hex : ℕ → List ℕ → ℕ
unfolding hex_digit
read_hex zero buffer = 0
read_hex (suc n) buffer = 16 * read_hex n buffer + hex_digit (get_or buffer n 0)

hex_digit-upper_hex : (d : ℕ) → d < 16 → hex_digit (upper_hex d) ≡ d
unfolding hex_digit upper_hex
hex_digit-upper_hex d h = ground arith

pub get_or-hex_loop :
    (n v : ℕ) (buffer : List ℕ) (j : ℕ)
    → n ≤ j
    → get_or (hex_loop n v buffer) j 0 ≡ get_or buffer j 0
unfolding hex_loop
get_or-hex_loop zero v buffer j h = refl
get_or-hex_loop (suc i) v buffer j h =
    get_or-hex_loop i (v / 2 ^ 4) _ j (omega arith)
    ∙ get_or-set_ne buffer {i = i} {j = j} (upper_hex (v % 2 ^ 4)) 0 (omega arith)

read_hex-hex_loop :
    (n v : ℕ) (buffer : List ℕ)
    → n ≤ length buffer
    → v < 16 ^ n
    → read_hex n (hex_loop n v buffer) ≡ v
unfolding hex_loop read_hex
read_hex-hex_loop zero v buffer room small = omega arith
read_hex-hex_loop (suc i) v buffer room small =
    let b = set buffer i (upper_hex (v % 2 ^ 4)) in
    let power : 16 ^ suc i ≡ 16 ^ i * 16 = pow-suc 16 i in
    let last : get_or (hex_loop i (v / 2 ^ 4) b) i 0 ≡ upper_hex (v % 2 ^ 4) =
      get_or-hex_loop i (v / 2 ^ 4) b i (omega arith)
      ∙ get_or-set_self buffer i (upper_hex (v % 2 ^ 4)) 0 (omega arith) in
    let rest : read_hex i (hex_loop i (v / 2 ^ 4) b) ≡ v / 2 ^ 4 =
      read_hex-hex_loop i (v / 2 ^ 4) b (omega (arith, length-set buffer i (upper_hex (v % 2 ^ 4))))
        (omega arith) in
    rw (last, rest, hex_digit-upper_hex (v % 2 ^ 4) (omega arith)) (omega arith)

-- For every 32-bit word, and a buffer of at least nine bytes, the eight characters that
-- `int_to_hex_str` writes read back as the word, a NUL follows them, and what is behind the NUL
-- has not changed.
int_to_hex_str-read_hex :
    (v : ℕ) (buffer : List ℕ)
    → v < 2 ^ 32
    → 9 ≤ length buffer
    → (out : List ℕ) × (int_to_hex_str v (some buffer) ≡ some out)
      × (read_hex 8 out ≡ v)
      × (get_or out 8 0 ≡ 0)
      × ((j : ℕ) → 8 < j → get_or out j 0 ≡ get_or buffer j 0)
unfolding int_to_hex_str
int_to_hex_str-read_hex v buffer small room = (
  hex_loop 8 v (set buffer 8 0),
  refl,
  read_hex-hex_loop 8 v (set buffer 8 0) (omega (arith, length-set buffer 8 0)) (omega arith),
  get_or-hex_loop 8 v (set buffer 8 0) 8 (omega arith) ∙ get_or-set_self buffer 8 0 0 (omega arith),
  λ j h.
      get_or-hex_loop 8 v (set buffer 8 0) j (omega arith)
      ∙ get_or-set_ne buffer {i = 8} {j = j} 0 0 (omega arith),
)
