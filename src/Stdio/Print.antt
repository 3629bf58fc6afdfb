-- ===== src/Stdio/Print.antt =====
-- `printf` of source/kernel/core/stdio.c, a format machine of its own: it goes back to the normal
-- state after every conversion, and has `%f`. What `printf_float` prints for the 64 bits of a double
-- is the parameter `float_chars`. The NULL pointer for `%s` is an error.
pub mod Rendering
use waffle_os.Common.{
  ℕ, Bool, true, false, ◌||◌, List, [], ◌∷◌, ◌++◌, Option, none, some, ◌==◌, if◌then◌else◌, ◌>>=◌,
}
use waffle_os.Stdio.Format.{
  State, normal, length, length_short, length_long, spec, Modifier, short_short, short, long,
  long_long, Arg, long_word, text, Machine, Output, start, take_char, print_number,
}
use waffle_os.Screen.{Screen, puts}

-- `puts(va_arg(args, const char*))`
take_puts : Machine → List Arg → Output
take_puts m (text s ∷ rest) = some (record m { args = rest }, s)
take_puts m _ = none

module _ (float_chars : ℕ → List ℕ) where
  take_double : Machine → List Arg → Output
  take_double m (long_word w ∷ rest) = some (record m { args = rest }, float_chars w)
  take_double m _ = none

  -- `switch (*fmt)` in PRINTF_STATE_SPEC
  unfoldable pub print_specifier : Machine → ℕ → Output
  unfolding take_char take_puts take_double
  print_specifier m c =
      if c == b'c'
      then take_char m m.args
      else if c == b's'
      then take_puts m m.args
      else if c == b'%'
      then some (m, b'%' ∷ [])
      else if c == b'd' || c == b'i'
      then some (record m { radix = 10; sign = true; number = true }, [])
      else if c == b'u'
      then some (record m { radix = 10; sign = false; number = true }, [])
      else if c == b'X' || (c == b'x' || c == b'p')
      then some (record m { radix = 16; sign = false; number = true }, [])
      else if c == b'o'
      then some (record m { radix = 8; sign = false; number = true }, [])
      else if c == b'f'
      then take_double m m.args
      else some (m, [])

  -- `if (number)`
  print_if_number : Bool → Machine → Output
  unfolding print_number
  print_if_number true m = print_number m m.length_modifier
  print_if_number false m = some (m, [])

  -- PRINTF_STATE_SPEC, the reset of the state included.
  unfoldable pub print_convert : Machine → ℕ → Output
  unfolding print_specifier print_if_number start
  print_convert m c = do
    (m', chars) ← print_specifier m c
    (m'', more) ← print_if_number m'.number m'
    some (start m''.args, chars ++ more)

  -- The body of the loop, with `goto PRINTF_STATE_SPEC_`.
  unfoldable pub print_step_in : State → Machine → ℕ → Output
  unfolding print_convert
  print_step_in normal m c =
      if c == b'%' then some (record m { state = length }, []) else some (m, c ∷ [])
  print_step_in length m c =
      if c == b'h'
      then some (record m { length_modifier = short; state = length_short }, [])
      else if c == b'l'
      then some (record m { length_modifier = long; state = length_long }, [])
      else print_convert m c
  print_step_in length_short m c =
      if c == b'h'
      then some (record m { length_modifier = short_short; state = spec }, [])
      else print_convert m c
  print_step_in length_long m c =
      if c == b'l'
      then some (record m { length_modifier = long_long; state = spec }, [])
      else print_convert m c
  print_step_in spec m c = print_convert m c

  unfoldable pub print_step : Machine → ℕ → Output
  unfolding print_step_in
  print_step m c = print_step_in m.state m c

  unfoldable pub print_run : Machine → List ℕ → Output
  unfolding print_step
  print_run m [] = some (m, [])
  print_run m (c ∷ fmt) = do
    (m', chars) ← print_step m c
    (m'', rest) ← print_run m' fmt
    some (m'', chars ++ rest)

  -- The characters go to `putc` in order.
  unfoldable pub printf : List ℕ → List Arg → Screen → Option Screen
  unfolding print_run puts start
  printf fmt args s = do (m, chars) ← print_run (start args) fmt; some (puts chars s)
