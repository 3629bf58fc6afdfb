-- ===== src/Stdio/Print/Rendering.antt =====
-- What `printf` (source/kernel/core/stdio.c) prints, by an independent description of formats.
use waffle_os.Common.{
  ℕ, ◌%◌, ◌^◌, ◌≡◌, ◌≢◌, refl, false, List, [], ◌∷◌, ◌++◌, Option, none, some, ◌==◌, ◌>>=◌, arith,
  ap, ◌∙◌, append-nil, Option-cases, inl, inr,
}
use waffle_os.Stdio.Digits.{unsigned_chars}
use waffle_os.Stdio.Format.{Arg, word, long_word, text, Machine, Output, start, signed_chars}
use waffle_os.Stdio.Format.Laws.{after, bind-after, bind-bind-after}
use waffle_os.Stdio.Print.{print_run, printf}
use waffle_os.Screen.{Screen, puts}

-- The parts of a format.
pub data Item : Type 0 where
  plain : ℕ → Item
  percent char_item string decimal unsigned hexadecimal octal : Item
  long_decimal long_unsigned long_hexadecimal : Item

abbrev pub item_text : Item → List ℕ
item_text (plain c) = c ∷ []
item_text percent = b'%' ∷ b'%' ∷ []
item_text char_item = b'%' ∷ b'c' ∷ []
item_text string = b'%' ∷ b's' ∷ []
item_text decimal = b'%' ∷ b'd' ∷ []
item_text unsigned = b'%' ∷ b'u' ∷ []
item_text hexadecimal = b'%' ∷ b'x' ∷ []
item_text octal = b'%' ∷ b'o' ∷ []
item_text long_decimal = b'%' ∷ b'l' ∷ b'l' ∷ b'd' ∷ []
item_text long_unsigned = b'%' ∷ b'l' ∷ b'l' ∷ b'u' ∷ []
item_text long_hexadecimal = b'%' ∷ b'l' ∷ b'l' ∷ b'x' ∷ []

abbrev pub format_text : List Item → List ℕ
format_text [] = []
format_text (i ∷ is) = item_text i ++ format_text is

-- The characters of a part and the arguments that it leaves; `none` if its argument is missing or
-- of another kind.
abbrev pub item_chars : Item → List Arg → Option (List ℕ × List Arg)
item_chars (plain c) args = some (c ∷ [], args)
item_chars percent args = some (b'%' ∷ [], args)
item_chars char_item (word w ∷ args) = some (w % 2 ^ 8 ∷ [], args)
item_chars string (text s ∷ args) = some (s, args)
item_chars decimal (word w ∷ args) = some (signed_chars 32 w 10, args)
item_chars unsigned (word w ∷ args) = some (unsigned_chars w 10, args)
item_chars hexadecimal (word w ∷ args) = some (unsigned_chars w 16, args)
item_chars octal (word w ∷ args) = some (unsigned_chars w 8, args)
item_chars long_decimal (long_word w ∷ args) = some (signed_chars 64 w 10, args)
item_chars long_unsigned (long_word w ∷ args) = some (unsigned_chars w 10, args)
item_chars long_hexadecimal (long_word w ∷ args) = some (unsigned_chars w 16, args)
item_chars i args = none

abbrev pub rendered : List Item → List Arg → Option (List ℕ)
rendered [] args = some []
rendered (i ∷ is) args = do
  (chars, args') ← item_chars i args
  rest ← rendered is args'
  some (chars ++ rest)

abbrev pub IsPlainItem : Item → Type 0
IsPlainItem (plain c) = c ≢ b'%'
IsPlainItem i = Unit

abbrev pub AllPlain : List Item → Type 0
AllPlain [] = Unit
AllPlain (i ∷ is) = IsPlainItem i × AllPlain is

-- The machine's step over one part, in front of any rest of a format.
abbrev Stepped : (ℕ → List ℕ) → Item → List Arg → List ℕ → Type 0
Stepped float_chars i args fmt =
    print_run float_chars (start args) (item_text i ++ fmt) ≡ elim (item_chars i args) [
      | none ↦ none
      | some (chars, args') ↦ after chars (print_run float_chars (start args') fmt)
    ]

bind_four :
    (front : List ℕ) (o : Output)
    → ((((o >>= λ (r : Machine × List ℕ). some (r.0, front ++ r.1)) >>= λ (r : Machine × List ℕ).
            some (r.0, [] ++ r.1))
          >>= λ (r : Machine × List ℕ). some (r.0, [] ++ r.1))
        >>= λ (r : Machine × List ℕ). some (r.0, [] ++ r.1))
      ≡ after front o
bind_four front none = refl
bind_four front (some (m, chars)) = refl

module _ (float_chars : ℕ → List ℕ) where
  run_item :
      (i : Item) (args : List Arg) (fmt : List ℕ) → IsPlainItem i → Stepped float_chars i args fmt
  unfolding print_run start
  run_item (plain c) args fmt p =
      let other : (c == b'%') ≡ false = ground arith in
      rw other (bind-after (c ∷ []) (print_run float_chars (start args) fmt))
  run_item percent args fmt p = bind-bind-after (b'%' ∷ []) (print_run float_chars (start args) fmt)
  run_item char_item (word w ∷ args) fmt p =
      bind-bind-after (w % 2 ^ 8 ∷ []) (print_run float_chars (start args) fmt)
  run_item char_item args fmt p = refl
  run_item string (text s ∷ args) fmt p =
      rw (append-nil s) (bind-bind-after s (print_run float_chars (start args) fmt))
  run_item string args fmt p = refl
  run_item decimal (word w ∷ args) fmt p =
      bind-bind-after (signed_chars 32 w 10) (print_run float_chars (start args) fmt)
  run_item decimal args fmt p = refl
  run_item unsigned (word w ∷ args) fmt p =
      bind-bind-after (unsigned_chars w 10) (print_run float_chars (start args) fmt)
  run_item unsigned args fmt p = refl
  run_item hexadecimal (word w ∷ args) fmt p =
      bind-bind-after (unsigned_chars w 16) (print_run float_chars (start args) fmt)
  run_item hexadecimal args fmt p = refl
  run_item octal (word w ∷ args) fmt p =
      bind-bind-after (unsigned_chars w 8) (print_run float_chars (start args) fmt)
  run_item octal args fmt p = refl
  run_item long_decimal (long_word w ∷ args) fmt p =
      bind_four (signed_chars 64 w 10) (print_run float_chars (start args) fmt)
  run_item long_decimal args fmt p = refl
  run_item long_unsigned (long_word w ∷ args) fmt p =
      bind_four (unsigned_chars w 10) (print_run float_chars (start args) fmt)
  run_item long_unsigned args fmt p = refl
  run_item long_hexadecimal (long_word w ∷ args) fmt p =
      bind_four (unsigned_chars w 16) (print_run float_chars (start args) fmt)
  run_item long_hexadecimal args fmt p = refl

-- The characters of an output.
abbrev chars_of : Output → Option (List ℕ)
chars_of none = none
chars_of (some (m, chars)) = some chars

chars_of-after :
    (chars : List ℕ) (o : Output) (r : Option (List ℕ))
    → chars_of o ≡ r
    → chars_of (after chars o) ≡ (r >>= λ rest. some (chars ++ rest))
chars_of-after chars none r e = rw (← e)
chars_of-after chars (some (m, more)) r e = rw (← e)

print_run-rendered :
    (float_chars : ℕ → List ℕ) (is : List Item) (args : List Arg)
    → AllPlain is
    → chars_of (print_run float_chars (start args) (format_text is)) ≡ rendered is args
unfolding print_run
print_run-rendered float_chars [] args p = refl
print_run-rendered float_chars (i ∷ is) args (p, ps) = elim (Option-cases (item_chars i args)) [
  | inl stops ↦ rw (run_item float_chars i args (format_text is) p, stops) refl
  | inr ((chars, args'), goes) ↦
      rw (run_item float_chars i args (format_text is) p, goes)
        (chars_of-after chars (print_run float_chars (start args') (format_text is))
          (rendered is args') (print_run-rendered float_chars is args' ps))
]

-- The screen with some characters put on it, or none.
abbrev pub shown : Option (List ℕ) → Screen → Option Screen
shown none s = none
shown (some chars) s = some (puts chars s)

shown-chars_of : (o : Output) (s : Screen) → (o >>= λ r. some (puts r.1 s)) ≡ shown (chars_of o) s
shown-chars_of none s = refl
shown-chars_of (some (m, chars)) s = refl

-- `printf` puts on the screen what its format describes, part by part: text as it is, a character
-- or a string as it is given, and numbers in their base with the sign of their width. It fails
-- exactly if an argument is missing or of another kind than its part takes.
pub printf-rendered :
    (float_chars : ℕ → List ℕ) (is : List Item) (args : List Arg) (s : Screen)
    → AllPlain is
    → printf float_chars (format_text is) args s ≡ shown (rendered is args) s
unfolding printf
printf-rendered float_chars is args s p =
    shown-chars_of (print_run float_chars (start args) (format_text is)) s
    ∙ ap (λ r. shown r s) (print_run-rendered float_chars is args p)
