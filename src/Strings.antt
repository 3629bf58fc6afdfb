-- ===== src/Strings.antt =====
-- source/kernel/libs/string.c. A C string is the list of its characters before the NUL, and a
-- pointer into it is what remains from there on, so that `*p == '\0'` is an empty list. An array
-- that is written to is a list of its bytes; a write behind its end would change nothing here, and
-- the laws ask for enough room.
pub mod Order
pub mod Scan
pub mod Copy
pub mod Hex
pub mod Reversal
pub mod Decimal
pub mod Splitting
mod Tests
use waffle_os.Common.{
  ℕ, zero, suc, ◌+◌, ◌-◌, ◌/◌, ◌%◌, ◌^◌, Bool, true, false, not, ◌&&◌, ◌||◌, List, [], ◌∷◌, Option,
  none, some, ltb, leb, ◌==◌, if◌then◌else◌, set, get_or, ◌++◌, get_or, length, ◌++◌, ℤ, pos, sub_ℕ,
}

pub strlen : List ℕ → ℕ
strlen [] = 0
strlen (c ∷ s) = suc (strlen s)

unfoldable pub isalnum : ℕ → Bool
isalnum c = (leb b'A' c && leb c b'Z') || ((leb b'a' c && leb c b'z') || (leb b'0' c && leb c b'9'))

unfoldable pub islower : ℕ → Bool
islower c = leb b'a' c && leb c b'z'

unfoldable pub toupper : ℕ → ℕ
unfolding islower
toupper c = if islower c then c - b'a' + b'A' else c

-- The difference of the first characters that differ, the NUL counting as 0.
unfoldable pub strcmp : List ℕ → List ℕ → ℤ
strcmp [] [] = pos 0
strcmp [] (d ∷ t) = sub_ℕ 0 d
strcmp (c ∷ s) [] = sub_ℕ c 0
strcmp (c ∷ s) (d ∷ t) = if not (c == d) then sub_ℕ c d else strcmp s t

-- The string from the first `character` on; `none` is NULL.
unfoldable pub strchr : List ℕ → ℕ → Option (List ℕ)
strchr [] character = none
strchr (c ∷ s) character = if c == character then some (c ∷ s) else strchr s character

-- The inner loop of `strpbrk`.
unfoldable pub in_set : ℕ → List ℕ → Bool
in_set c [] = false
in_set c (d ∷ char_set) = if c == d then true else in_set c char_set

unfoldable pub strpbrk : List ℕ → List ℕ → Option (List ℕ)
unfolding in_set
strpbrk [] char_set = none
strpbrk (c ∷ s) char_set = if in_set c char_set then some (c ∷ s) else strpbrk s char_set

-- `n` bytes from index `i` on: the first loop while there are characters, then the second.
pub strncpy_from : ℕ → ℕ → List ℕ → List ℕ → List ℕ
strncpy_from zero i src dest = dest
strncpy_from (suc n) i [] dest = strncpy_from n (i + 1) [] (set dest i 0)
strncpy_from (suc n) i (c ∷ src) dest = strncpy_from n (i + 1) src (set dest i c)

pub strncpy : List ℕ → List ℕ → ℕ → List ℕ
unfolding strncpy_from
strncpy dest src n = strncpy_from n 0 src dest

-- The characters and the NUL, from index `i` on.
pub strcpy_from : ℕ → List ℕ → List ℕ → List ℕ
strcpy_from i [] dest = set dest i 0
strcpy_from i (c ∷ src) dest = strcpy_from (i + 1) src (set dest i c)

pub strcpy : List ℕ → List ℕ → List ℕ
unfolding strcpy_from
strcpy dest src = strcpy_from 0 src dest

-- The index of the NUL in an array, or its length if there is none.
unfoldable pub find_end : List ℕ → ℕ
find_end [] = 0
find_end (c ∷ s) = if c == 0 then 0 else suc (find_end s)

pub strcat : List ℕ → List ℕ → List ℕ
unfolding strcpy_from find_end
strcat dest src = strcpy_from (find_end dest) src dest

-- `hex_chars[d]`
pub upper_hex : ℕ → ℕ
upper_hex d = if ltb d 10 then b'0' + d else b'A' + (d - 10)

-- `for (int i = 7; i >= 0; --i)`, from `i = n - 1` down.
pub hex_loop : ℕ → ℕ → List ℕ → List ℕ
unfolding upper_hex
hex_loop zero value buffer = buffer
hex_loop (suc i) value buffer =
    hex_loop i (value / 2 ^ 4) (set buffer i (upper_hex (value % 2 ^ 4)))

-- `none` is the buffer NULL, for which it returns -1.
pub int_to_hex_str : ℕ → Option (List ℕ) → Option (List ℕ)
unfolding hex_loop
int_to_hex_str value none = none
int_to_hex_str value (some buffer) = some (hex_loop 8 value (set buffer 8 0))

-- `while (num != 0)`, the lowest digit first. An `int` has at most ten digits.
unfoldable pub decimal_loop : ℕ → ℕ → List ℕ
decimal_loop zero num = []
decimal_loop (suc fuel) num =
    let rest = decimal_loop fuel (num / 10) in if num == 0 then [] else (num % 10 + b'0') ∷ rest

-- The swaps of `str[j]` and `str[i - 1 - j]`, with the rounds that are left.
unfoldable pub swap_loop : ℕ → ℕ → ℕ → List ℕ → List ℕ
swap_loop zero j i str = str
swap_loop (suc rounds) j i str =
    swap_loop rounds (j + 1) i
      (set (set str j (get_or str (i - 1 - j) 0)) (i - 1 - j) (get_or str j 0))

abbrev pub swap_all : List ℕ → List ℕ
swap_all str = swap_loop (length str / 2) 0 (length str) str

-- `num` is the 32-bit pattern of an `int`; the result is what `str` holds up to `*len`. `none` is
-- the overflow of `-num` at the least `int`.
unfoldable pub int_to_str : ℕ → Option (List ℕ)
unfolding decimal_loop swap_loop
int_to_str num =
    if num == 0
    then some (b'0' ∷ [])
    else if num == 2 ^ 31
    then none
    else if leb (2 ^ 31) num
    then some (swap_all (decimal_loop 10 (2 ^ 32 - num) ++ b'-' ∷ []))
    else some (swap_all (decimal_loop 10 num))
