-- ===== src/Graphics/Bounds.antt =====
-- Where drawing writes: never outside the buffer of the context.
use waffle_os.Common.{
  ℕ, zero, suc, ◌+◌, ◌*◌, ◌/◌, ◌%◌, ◌^◌, ◌≤◌, ◌<◌, ◌≡◌, ◌⊎◌, refl, ◌∙◌, Bool, true, false, List, [],
  ◌∷◌, some, ◌==◌, if◌then◌else◌, ℤ, pos, pos_part, leb_ℤ, ltb_ℤ, ◌||◌, ◌+ℤ◌, arith,
}
use native.Mathlib.Nat.{mul-le-mul_right, suc-mul}
use waffle_os.Memory.Bytes.{Mem8, write, write_word}
use waffle_os.Graphics.{
  GraphicsContext, store_pixel, ctx_put_pixel, draw_row, draw_rows, ctx_draw_rect, draw_line,
}
use waffle_os.Graphics.Lines.{paint, draw_line-LinePath}
use waffle_os.Graphics.Shapes.{draw_bits, draw_glyph, draw_char, draw_chars, draw_string}

-- `a` lies before or after the pixels of the context.
abbrev pub Outside : GraphicsContext → ℕ → Type 0
Outside ctx a = (a < ctx.buffer) ⊎ (ctx.buffer + ctx.height * ctx.pitch ≤ a)

-- The pixels of a row lie within its pitch.
abbrev pub RowsFit : GraphicsContext → Type 0
RowsFit ctx = ctx.width * ctx.bytes_per_pixel ≤ ctx.pitch

-- Every pixel put leaves the byte at `a` as it is.
abbrev pub Spares : ℕ → (ℤ → ℤ → Mem8 → Mem8) → Type 0
Spares a put = (x y : ℤ) (m : Mem8) → put x y m a ≡ m a

pub if-either : (b : Bool) (p q : Mem8) (a : ℕ) → p a ≡ q a → (if b then p else q) a ≡ q a
if-either true p q a e = e
if-either false p q a e = refl

pub if-unless :
    (b : Bool) (p q : Mem8) (a : ℕ) → (b ≡ false → q a ≡ p a) → (if b then p else q) a ≡ p a
if-unless true p q a e = refl
if-unless false p q a e = e refl

module _ (put : ℤ → ℤ → Mem8 → Mem8) (a : ℕ) (spares : Spares a put) where
  paint-Spares : (path : List (ℤ × ℤ)) (m : Mem8) → paint put path m a ≡ m a
  unfolding paint
  paint-Spares [] m = refl
  paint-Spares ((x, y) ∷ path) m = paint-Spares path (put x y m) ∙ spares x y m

  module _ (font : ℕ → ℕ → ℕ) where
    draw_bits-Spares : (n bits : ℕ) (x y : ℤ) (m : Mem8) → draw_bits put font n bits x y m a ≡ m a
    unfolding draw_bits
    draw_bits-Spares zero bits x y m = refl
    draw_bits-Spares (suc n) bits x y m =
        draw_bits-Spares n bits (x +ℤ pos 1) y (if bits / 2 ^ n % 2 == 1 then put x y m else m)
        ∙ if-either (bits / 2 ^ n % 2 == 1) (put x y m) m a (spares x y m)

    draw_glyph-Spares :
        (n row c : ℕ) (x y : ℤ) (m : Mem8) → draw_glyph put font n row c x y m a ≡ m a
    unfolding draw_glyph
    draw_glyph-Spares zero row c x y m = refl
    draw_glyph-Spares (suc n) row c x y m =
        draw_glyph-Spares n (row + 1) c x (y +ℤ pos 1) (draw_bits put font 8 (font c row) x y m)
        ∙ draw_bits-Spares 8 (font c row) x y m

    pub draw_chars-Spares :
        (orig_x x y : ℤ) (str : List ℕ) (m : Mem8) → draw_chars put font orig_x str x y m a ≡ m a
    unfolding draw_chars draw_char
    draw_chars-Spares orig_x x y [] m = refl
    draw_chars-Spares orig_x x y (c ∷ str) m =
        elim (c == 10)
          as (λ b.
            elim b as (λ _. Mem8) [
              | true ↦ draw_chars put font orig_x str orig_x (y +ℤ pos 16) m
              | false ↦ draw_chars put font orig_x str (x +ℤ pos 8) y (draw_char put font x y c m)
            ]
              a
            ≡ m a) [
              | true ↦ draw_chars-Spares orig_x orig_x (y +ℤ pos 16) str m
              | false ↦
                  draw_chars-Spares orig_x (x +ℤ pos 8) y str (draw_char put font x y c m)
                  ∙ draw_glyph-Spares 16 0 c x y m
            ]

pub store_pixel-spares :
    (bytes_per_pixel p color a : ℕ) (m : Mem8)
    → (a < p) ⊎ (p + bytes_per_pixel ≤ a)
    → store_pixel bytes_per_pixel p color m a ≡ m a
unfolding store_pixel write write_word
store_pixel-spares bytes_per_pixel p color a m apart = ground arith

pub pixel-within :
    (width height pitch bytes_per_pixel x y : ℕ)
    → width * bytes_per_pixel ≤ pitch
    → x < width
    → y < height
    → y * pitch + x * bytes_per_pixel + bytes_per_pixel ≤ height * pitch
pixel-within width height pitch bytes_per_pixel x y fit on_x on_y =
    let row = mul-le-mul_right pitch on_y in
    let column = mul-le-mul_right bytes_per_pixel on_x in
    let next_row = suc-mul y pitch in let next_column = suc-mul x bytes_per_pixel in omega arith

abbrev pub off_screen : GraphicsContext → ℤ → ℤ → Bool
off_screen ctx x y =
    ltb_ℤ x (pos 0) || (leb_ℤ (pos ctx.width) x || (ltb_ℤ y (pos 0) || leb_ℤ (pos ctx.height) y))

module _ (ctx : GraphicsContext) (color a : ℕ) (fit : RowsFit ctx) (outside : Outside ctx a) where
  pub put_pixel-Spares : Spares a (λ x y. ctx_put_pixel ctx x y color)
  unfolding ctx_put_pixel
  put_pixel-Spares x y m =
      let place = ctx.buffer + (pos_part y * ctx.pitch + pos_part x * ctx.bytes_per_pixel) in
      if-unless (off_screen ctx x y) m (store_pixel ctx.bytes_per_pixel place color m) a (λ on.
        let on_x : pos_part x < ctx.width = ground arith in
        let on_y : pos_part y < ctx.height = ground arith in
        let within =
          pixel-within ctx.width ctx.height ctx.pitch ctx.bytes_per_pixel (pos_part x) (pos_part y)
            fit on_x on_y in
        store_pixel-spares ctx.bytes_per_pixel place color a m (grind arith))

  draw_row-Spares : (n : ℕ) (x y : ℤ) (m : Mem8) → draw_row n ctx x y color m a ≡ m a
  unfolding draw_row
  draw_row-Spares zero x y m = refl
  draw_row-Spares (suc n) x y m =
      draw_row-Spares n (x +ℤ pos 1) y (ctx_put_pixel ctx x y color m) ∙ put_pixel-Spares x y m

  draw_rows-Spares : (n width : ℕ) (x y : ℤ) (m : Mem8) → draw_rows n width ctx x y color m a ≡ m a
  unfolding draw_rows
  draw_rows-Spares zero width x y m = refl
  draw_rows-Spares (suc n) width x y m =
      draw_rows-Spares n width x (y +ℤ pos 1) (draw_row width ctx x y color m)
      ∙ draw_row-Spares width x y m

-- Drawing never writes outside the buffer: when the pixels of a row fit its pitch, a line, a filled
-- rectangle and a string, wherever they lie, leave every byte before the buffer and from the end of
-- its rows on as it was. The mode may have any number of bytes per pixel.
pub drawing-inside :
    (ctx : GraphicsContext) (font : ℕ → ℕ → ℕ) (color a : ℕ) (m : Mem8)
    → RowsFit ctx
    → Outside ctx a
    → ((x y width height : ℤ) → ctx_draw_rect ctx x y width height color m a ≡ m a)
      × ((x y : ℤ) (str : List ℕ)
          → draw_string (λ x y. ctx_put_pixel ctx x y color) font x y str m a ≡ m a)
      × ((x1 y1 x2 y2 : ℤ)
          → (m' : Mem8) × (draw_line (λ x y. ctx_put_pixel ctx x y color) x1 y1 x2 y2 m ≡ some m')
            × (m' a ≡ m a))
unfolding ctx_draw_rect draw_string
drawing-inside ctx font color a m fit outside =
    let put : ℤ → ℤ → Mem8 → Mem8 = λ x y. ctx_put_pixel ctx x y color in
    let spares = put_pixel-Spares ctx color a fit outside in
    (
      λ x y width height.
          draw_rows-Spares ctx color a fit outside (pos_part height) (pos_part width) x y m,
      λ x y str. draw_chars-Spares put a spares font x x y str m,
      λ x1 y1 x2 y2.
          let (path, goes, _, _) = draw_line-LinePath put x1 y1 x2 y2 m in
          (paint put path m, goes, paint-Spares put a spares path m),
    )
