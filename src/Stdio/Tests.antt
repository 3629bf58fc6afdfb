-- ===== src/Stdio/Tests.antt =====
-- Formats on concrete arguments.
use waffle_os.Common.{codes, ℕ, ◌-◌, ◌≡◌, refl, List, [], ◌∷◌, some, arith}
use waffle_os.Stdio.Digits.{unsigned_chars}
use waffle_os.Stdio.Format.{word, text, start, run}
use waffle_os.Stdio.Print.{printf}
use waffle_os.Stdio.Print.Rendering.{
  Item, plain, string, decimal, format_text, rendered, shown, printf-rendered,
}
use waffle_os.Screen.{Screen}
use waffle_os.Stdio.Buffer.{vsnprintf, Printed, vsnprintf-Printed}

-- "x = %d, %x" with -42 and 255
run_numbers :
    run (start (word (0xffffffff - 41) ∷ word 255 ∷ [])) (codes "x = %d, %x")
    ≡ some (start [], codes "x = -42, ff")
unfolding run start unsigned_chars
run_numbers = refl

abbrev eight : List ℕ
eight = 1 ∷ 2 ∷ 3 ∷ 4 ∷ 5 ∷ 6 ∷ 7 ∷ 8 ∷ []

-- Six places for "id 12345", in an array of eight.
vsnprintf-Printed_example :
    (r : ℕ × List ℕ) × (vsnprintf eight 6 (codes "id %d") (word 12345 ∷ []) ≡ some r)
    × Printed eight 6 (codes "id 12345") r
unfolding run start unsigned_chars
vsnprintf-Printed_example =
    vsnprintf-Printed eight 6 (codes "id %d") (word 12345 ∷ []) (omega arith) (omega arith) refl

-- "%s = %d"
abbrev line : List Item
line = string ∷ plain b' ' ∷ plain b'=' ∷ plain b' ' ∷ decimal ∷ []

abbrev top_left : Screen
top_left = record { bytes = λ a. 0; screen_x = 0; screen_y = 0 }

abbrev no_float : ℕ → List ℕ
no_float f = []

printf-rendered_example :
    printf no_float (format_text line) (text (codes "x") ∷ word 42 ∷ []) top_left
    ≡ shown (rendered line (text (codes "x") ∷ word 42 ∷ [])) top_left
printf-rendered_example =
    printf-rendered no_float line (text (codes "x") ∷ word 42 ∷ []) top_left
      (tt, (ground arith, (ground arith, (ground arith, (tt, tt)))))
