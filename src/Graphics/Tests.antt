-- ===== src/Graphics/Tests.antt =====
-- Drawing on concrete inputs.
use waffle_os.Common.{
  ℕ, suc, ◌+◌, ◌≤◌, ◌≡◌, refl, List, [], ◌∷◌, some, length, ℤ, pos, negsuc, pos_part,
}
use waffle_os.Memory.Bytes.{Mem8}
use waffle_os.Graphics.{GraphicsContext, ctx_draw_rect, draw_rect, draw_line, difference, g_clrscr}
use waffle_os.Graphics.Lines.{LinePath, paint, draw_line-LinePath}
use waffle_os.Graphics.Rectangles.{draw_rect-ctx_draw_rect}
use waffle_os.Graphics.Shapes.{draw_arrow, draw_arrow-some}

-- A screen of eight by four pixels.
abbrev screen : GraphicsContext
screen = record { buffer = 100; width = 8; height = 4; pitch = 8; bytes_per_pixel = 1 }

abbrev blank : Mem8
blank a = 0

-- The pixels put, the last one first.
abbrev log : ℤ → ℤ → List (ℤ × ℤ) → List (ℤ × ℤ)
log x y pixels = (x, y) ∷ pixels

abbrev font : ℕ → ℕ → ℕ
font c row = 129

line_up :
    draw_line log (pos 0) (pos 0) (pos 4) (negsuc 1) []
    ≡ some (
        (pos 4, negsuc 1)
        ∷ (pos 3, negsuc 0)
        ∷ (pos 2, negsuc 0)
        ∷ (pos 1, pos 0)
        ∷ (pos 0, pos 0)
        ∷ [])
unfolding draw_line
line_up = refl

rect_off_left : draw_rect screen (negsuc 1) (pos 1) (pos 4) (pos 1) 7 blank 109 ≡ 7
unfolding draw_rect
rect_off_left = refl

rect_clipped : draw_rect screen (negsuc 1) (pos 1) (pos 4) (pos 1) 7 blank 110 ≡ 0
unfolding draw_rect
rect_clipped = refl

clear_last : g_clrscr screen 259 blank 131 ≡ 3
unfolding g_clrscr
clear_last = refl

draw_line-LinePath_example :
    (path : List (ℤ × ℤ)) × (draw_line log (pos 0) (pos 0) (pos 4) (negsuc 1) []
      ≡ some (paint log path []))
    × LinePath (pos 4) (negsuc 1) (pos 0) (pos 0) path
    × (length path
        ≤ suc (pos_part (difference (pos 0) (pos 4)) + pos_part (difference (pos 0) (negsuc 1))))
draw_line-LinePath_example = draw_line-LinePath log (pos 0) (pos 0) (pos 4) (negsuc 1) []

draw_rect-ctx_draw_rect_example :
    ctx_draw_rect screen (negsuc 1) (pos 1) (pos 4) (pos 9) 7 blank
    ≡ draw_rect screen (negsuc 1) (pos 1) (pos 4) (pos 9) 7 blank
draw_rect-ctx_draw_rect_example =
    draw_rect-ctx_draw_rect screen (negsuc 1) (pos 1) (pos 4) (pos 9) 7 blank refl

draw_arrow-some_example :
    (b : List (ℤ × ℤ)) × (draw_arrow log (pos 0) (pos 0) (pos 5) (pos 2) [] ≡ some b)
draw_arrow-some_example = draw_arrow-some log (pos 0) (pos 0) (pos 5) (pos 2) []
