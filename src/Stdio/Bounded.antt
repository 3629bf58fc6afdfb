-- ===== src/Stdio/Bounded.antt =====
-- `snprintf` of source/kernel/core/stdio.c, which reads only `%s` and `%d`.
pub mod Cutting
use waffle_os.Common.{
  ℕ, zero, suc, ◌+◌, ◌-◌, Bool, true, false, List, [], ◌∷◌, ◌++◌, Option, none, some, ◌==◌,
  if◌then◌else◌, ◌>>=◌, length, take,
}
use waffle_os.Strings.{int_to_str}
use waffle_os.Stdio.Format.{Arg, word, text}

-- What a conversion prints before it is cut, and the arguments after it. `none` is an argument of
-- another kind, or a number that `int_to_str` does not take.
unfoldable pub conversion : ℕ → List Arg → Option (List ℕ × List Arg)
unfolding int_to_str
conversion c args =
    if c == b's'
    then (elim args [ text s ∷ rest ↦ some (s, rest) | _ ↦ none ])
    else if c == b'd'
    then (elim args [ word w ∷ rest ↦ (do digits ← int_to_str w; some (digits, rest)) | _ ↦ none ])
    else some (c ∷ [], args)

-- The loop with the room that is left, `max_size - written`. A `%` at the end of the format makes it
-- read behind its NUL, which is `none` here.
unfoldable pub snprintf_loop : List ℕ → ℕ → List Arg → Option (List ℕ)
unfolding conversion
snprintf_loop [] room args = some []
snprintf_loop (c ∷ fmt) zero args = some []
snprintf_loop (c ∷ []) (suc room) args = if c == b'%' then none else some (c ∷ [])
snprintf_loop (c ∷ d ∷ fmt) (suc room) args =
    let converted : Option (List ℕ) = do
      (chars, args') ← conversion d args
      rest ← snprintf_loop fmt (suc room - length (take (suc room) chars)) args'
      some (take (suc room) chars ++ rest)
    in let plain : Option (List ℕ) = (do
      rest ← snprintf_loop (d ∷ fmt) room args
      some (c ∷ rest)) in
      if c == b'%' then converted else plain

-- The characters in front of the NUL; their number is the result.
unfoldable pub snprintf : ℕ → List ℕ → List Arg → Option (List ℕ)
unfolding snprintf_loop
snprintf zero fmt args = some []
snprintf (suc max_size) fmt args = snprintf_loop fmt max_size args
