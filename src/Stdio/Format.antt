-- ===== src/Stdio/Format.antt =====
-- The format machine of `vsnprintf` (source/kernel/core/stdio.c). A step consumes one character of
-- the format and yields the characters that it hands to `buffer_putc`; the buffer is in `Buffer`.
-- A format is its characters before the NUL. `none` is a `va_arg` that finds no argument of the
-- type that it asks for, which C leaves undefined.
pub mod Laws
use waffle_os.Common.{
  ℕ, ◌+◌, ◌-◌, ◌%◌, ◌^◌, Bool, true, false, ◌||◌, List, [], ◌∷◌, ◌++◌, Option, none, some, leb, ltb,
  ◌==◌, if◌then◌else◌, ◌>>=◌,
}
use waffle_os.Stdio.Digits.{unsigned_chars}

-- PRINTF_STATE_*
pub data State : Type 0 where
  normal length length_short length_long spec : State

-- PRINTF_LENGTH_*
pub data Modifier : Type 0 where
  default short_short short long long_long : Modifier

-- An argument as it was passed: 32 bits, 64 bits, or a pointer to a string (NULL, or its
-- characters).
pub data Arg : Type 0 where
  word : ℕ → Arg
  long_word : ℕ → Arg
  text : List ℕ → Arg
  null_text : Arg

-- The local variables of `vsnprintf` but the buffer.
pub record Machine : Type 0 where
  pub state : State
  pub length_modifier : Modifier
  pub radix : ℕ
  pub sign : Bool
  pub number : Bool
  pub args : List Arg

abbrev pub Output : Type 0
Output = Option (Machine × List ℕ)

unfoldable pub start : List Arg → Machine
start args = record {
  state = normal;
  length_modifier = default;
  radix = 10;
  sign = false;
  number = false;
  args = args;
}

-- `(char)c`
unfoldable pub take_char : Machine → List Arg → Output
take_char m (word w ∷ rest) = some (record m { args = rest }, w % 2 ^ 8 ∷ [])
take_char m _ = none

null_chars : List ℕ
null_chars = b'(' ∷ b'n' ∷ b'u' ∷ b'l' ∷ b'l' ∷ b')' ∷ []

take_text : Machine → List Arg → Output
unfolding null_chars
take_text m (text s ∷ rest) = some (record m { args = rest }, s)
take_text m (null_text ∷ rest) = some (record m { args = rest }, null_chars)
take_text m _ = none

-- `switch (*fmt)` in PRINTF_STATE_SPEC
specifier : Machine → ℕ → Output
unfolding take_char take_text
specifier m c =
    if c == b'c'
    then take_char m m.args
    else if c == b's'
    then take_text m m.args
    else if c == b'%'
    then some (m, b'%' ∷ [])
    else if c == b'd' || c == b'i'
    then some (record m { radix = 10; sign = true; number = true }, [])
    else if c == b'u'
    then some (record m { radix = 10; sign = false; number = true }, [])
    else if c == b'x' || (c == b'X' || c == b'p')
    then some (record m { radix = 16; sign = false; number = true }, [])
    else if c == b'o'
    then some (record m { radix = 8; sign = false; number = true }, [])
    else some (m, c ∷ [])

-- `buffer_print_signed` on a pattern of `bits` bits
unfoldable pub signed_chars : ℕ → ℕ → ℕ → List ℕ
signed_chars bits w radix =
    if leb (2 ^ (bits - 1)) w
    then b'-' ∷ unsigned_chars (2 ^ bits - w) radix
    else unsigned_chars w radix

unfoldable pub number_chars : Bool → ℕ → ℕ → ℕ → List ℕ
unfolding signed_chars
number_chars true bits w radix = signed_chars bits w radix
number_chars false bits w radix = unsigned_chars w radix

-- The reset after a number.
unfoldable pub print_word : Machine → List Arg → Output
unfolding number_chars start
print_word m (word w ∷ rest) = some (start rest, number_chars m.sign 32 w m.radix)
print_word m _ = none

unfoldable pub print_long_word : Machine → List Arg → Output
unfolding number_chars start
print_long_word m (long_word w ∷ rest) = some (start rest, number_chars m.sign 64 w m.radix)
print_long_word m _ = none

-- `switch (length_modifier)`: `long` has 32 bits on i386.
unfoldable pub print_number : Machine → Modifier → Output
unfolding print_word print_long_word
print_number m long_long = print_long_word m m.args
print_number m _ = print_word m m.args

-- `if (number)`
print_pending : Bool → Machine → List ℕ → Output
unfolding print_number
print_pending true m chars = do
  (m', more) ← print_number m m.length_modifier
  some (m', chars ++ more)
print_pending false m chars = some (m, chars)

-- PRINTF_STATE_SPEC
convert : Machine → ℕ → Output
unfolding specifier print_pending
convert m c = do (m', chars) ← specifier m c; print_pending m'.number m' chars

-- The body of the loop, `continue` included.
step_in : State → Machine → ℕ → Output
unfolding convert
step_in normal m c = if c == b'%' then some (record m { state = length }, []) else some (m, c ∷ [])
step_in length m c =
    if c == b'h'
    then some (record m { length_modifier = short; state = length_short }, [])
    else if c == b'l'
    then some (record m { length_modifier = long; state = length_long }, [])
    else convert (record m { state = spec }) c
step_in length_short m c =
    if c == b'h'
    then some (record m { length_modifier = short_short; state = spec }, [])
    else convert (record m { state = spec }) c
step_in length_long m c =
    if c == b'l'
    then some (record m { length_modifier = long_long; state = spec }, [])
    else convert (record m { state = spec }) c
step_in spec m c = convert m c

unfoldable pub step : Machine → ℕ → Output
unfolding step_in
step m c = step_in m.state m c

-- `while (*fmt)`
unfoldable pub run : Machine → List ℕ → Output
unfolding step
run m [] = some (m, [])
run m (c ∷ fmt) = do (m', chars) ← step m c; (m'', rest) ← run m' fmt; some (m'', chars ++ rest)
