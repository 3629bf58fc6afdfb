-- ===== src/Stdio/Format/Laws.antt =====
-- What the format machine of `vsnprintf` (source/kernel/core/stdio.c) prints.
use waffle_os.Common.{
  ℕ, ◌%◌, ◌^◌, ◌≡◌, ◌≢◌, refl, List, [], ◌∷◌, ◌++◌, none, some, ◌>>=◌, arith, append-nil,
  append_assoc, Option-cases, inl, inr, ◌∙◌, ap, sym,
}
use waffle_os.Stdio.Format.{spec, Arg, word, text, Machine, Output, start, signed_chars, step, run}

-- The characters `front` are printed before those of `o`.
abbrev pub after : List ℕ → Output → Output
after front none = none
after front (some (m, chars)) = some (m, front ++ chars)

pub bind-after :
    (front : List ℕ) (o : Output) → (o >>= λ r. some (r.0, front ++ r.1)) ≡ after front o
bind-after front none = refl
bind-after front (some (m, chars)) = refl

pub bind-bind-after :
    (front : List ℕ) (o : Output)
    → ((o >>= λ (r : Machine × List ℕ). some (r.0, front ++ r.1)) >>= λ (r : Machine × List ℕ).
        some (r.0, [] ++ r.1))
      ≡ after front o
bind-bind-after front none = refl
bind-bind-after front (some (m, chars)) = refl

after-after : (a b : List ℕ) (o : Output) → after a (after b o) ≡ after (a ++ b) o
after-after a b none = refl
after-after a b (some (m, chars)) = ap (λ xs. some (m, xs)) (sym (append_assoc a b chars))

after-nil : (o : Output) → o ≡ after [] o
after-nil none = refl
after-nil (some (m, chars)) = refl

after-bind :
    (front : List ℕ) (o : Output) (g : List ℕ)
    → after front (o >>= λ r. after r.1 (run r.0 g))
      ≡ (after front o >>= λ r. after r.1 (run r.0 g))
after-bind front none g = refl
after-bind front (some (m, chars)) g = after-after front chars (run m g)

run-cons :
    (m : Machine) (c : ℕ) (f : List ℕ) → run m (c ∷ f) ≡ (step m c >>= λ r. after r.1 (run r.0 f))
unfolding run
run-cons m c f = elim (Option-cases (step m c)) [
  | inl stop ↦ rw stop
  | inr ((m', out), go) ↦ rw go (bind-after out (run m' f))
]

-- A format is run piece by piece.
run-append :
    (m : Machine) (f g : List ℕ) → run m (f ++ g) ≡ (run m f >>= λ r. after r.1 (run r.0 g))
unfolding run
run-append m [] g = after-nil (run m g)
run-append m (c ∷ f) g = elim (Option-cases (step m c)) [
  | inl stop ↦ rw (run-cons m c (f ++ g), run-cons m c f, stop)
  | inr ((m', out), go) ↦
      rw (run-cons m c (f ++ g), run-cons m c f, go)
        (ap (after out) (run-append m' f g) ∙ after-bind out (run m' f) g)
]

-- No character of the text is a percent sign.
abbrev pub IsPlain : List ℕ → Type 0
IsPlain [] = Unit
IsPlain (c ∷ cs) = (c ≢ b'%') × IsPlain cs

-- Outside a conversion, text without a percent sign is printed as it is.
pub run_plain :
    (args : List Arg) (cs : List ℕ) → IsPlain cs → run (start args) cs ≡ some (start args, cs)
unfolding run step start
run_plain args [] p = refl
run_plain args (c ∷ cs) p = ground (arith, run_plain args cs p.1)

-- After a `%d` the machine is as at the start, with the argument used up.
run_decimal :
    (w : ℕ) (args : List Arg) (rest : List ℕ)
    → run (start (word w ∷ args)) (b'%' ∷ b'd' ∷ rest)
      ≡ after (signed_chars 32 w 10) (run (start args) rest)
unfolding run step start
run_decimal w args rest = bind-bind-after (signed_chars 32 w 10) (run (start args) rest)

-- After a `%s` the machine still waits for a specifier.
abbrev pub stuck : List Arg → Machine
stuck args = record (start args) { state = spec }

pub run_text :
    (s : List ℕ) (args : List Arg) (rest : List ℕ)
    → run (start (text s ∷ args)) (b'%' ∷ b's' ∷ rest) ≡ after s (run (stuck args) rest)
unfolding run step start
run_text s args rest = bind-bind-after s (run (stuck args) rest)

-- The other conversions that do not print a number leave the machine waiting as well.
pub run_char :
    (w : ℕ) (args : List Arg) (rest : List ℕ)
    → run (start (word w ∷ args)) (b'%' ∷ b'c' ∷ rest)
      ≡ after (w % 2 ^ 8 ∷ []) (run (stuck args) rest)
unfolding run step start
run_char w args rest = bind-bind-after (w % 2 ^ 8 ∷ []) (run (stuck args) rest)

-- So a letter `d` after a string is taken as a conversion: for every string and every argument
-- after it, the format `%sd` prints the string and then that argument in decimal, where `%s` and
-- a letter is what it says.
pub run_text_then_letter :
    (s : List ℕ) (w : ℕ) (args : List Arg)
    → run (start (text s ∷ word w ∷ args)) (b'%' ∷ b's' ∷ b'd' ∷ [])
      ≡ some (start args, s ++ signed_chars 32 w 10)
unfolding run step start
run_text_then_letter s w args =
    run_text s (word w ∷ args) (b'd' ∷ []) ∙ ap (λ xs. some (start args, s ++ xs)) (append-nil _)

-- "  %s: %s\r\n"
abbrev pub help_format : List ℕ
help_format = b' ' ∷ b' ' ∷ b'%' ∷ b's' ∷ b':' ∷ b' ' ∷ b'%' ∷ b's' ∷ 13 ∷ 10 ∷ []

-- The line that `print_command_list` prints for a command: the second `%s` of its format comes out
-- as a percent sign and the text, whatever the name and the help text are.
run_help_line :
    (name help : List ℕ)
    → run (start (text name ∷ text help ∷ [])) help_format
      ≡ some (stuck [], b' ' ∷ b' ' ∷ (name ++ b':' ∷ b' ' ∷ b'%' ∷ (help ++ 13 ∷ 10 ∷ [])))
unfolding run step start
run_help_line name help = refl
