-- ===== src/Graphics/Shapes.antt =====
-- Arrows, characters and strings: `ctx_draw_arrow`, `ctx_draw_char` and `ctx_draw_string` of
-- libs/ui/graphics_context.c and `draw_char` and `draw_string` of drivers/display.c, by the routine
-- that puts a pixel. The bitmaps `font8x16` of drivers/font.c are an argument: the byte of a row of
-- a character.
use waffle_os.Common.{
  ℕ, zero, suc, ◌+◌, ◌*◌, ◌/◌, ◌%◌, ◌^◌, ◌≡◌, refl, ap, ◌∙◌, Bool, true, false, List, [], ◌∷◌,
  Option, some, ◌>>=◌, ◌==◌, if◌then◌else◌, ℤ, pos, leb_ℤ, ◌+ℤ◌, ◌-ℤ◌, int_laws,
}
use waffle_os.Graphics.{draw_line}
use waffle_os.Graphics.Lines.{paint, draw_line-LinePath}

cell_right : (x : ℤ) (i : ℕ) → x +ℤ pos (8 * i) +ℤ pos 8 ≡ x +ℤ pos (8 * (i + 1))
cell_right x i = grind int_laws

cell_down : (y : ℤ) (j : ℕ) → y +ℤ pos (16 * j) +ℤ pos 16 ≡ y +ℤ pos (16 * (j + 1))
cell_down y j = grind int_laws

cell_first : (x : ℤ) → x ≡ x +ℤ pos (8 * 0)
cell_first x = grind int_laws

cell_first_line : (y : ℤ) → y ≡ y +ℤ pos (16 * 0)
cell_first_line y = grind int_laws

branches {ℓ} :
    {A : Type ℓ} (b : Bool) {p p' q q' : A}
    → p ≡ p'
    → q ≡ q'
    → elim b as (λ _. A) [ true ↦ p | false ↦ q ] ≡ elim b as (λ _. A) [ true ↦ p' | false ↦ q' ]
branches true p q = p
branches false p q = q

module _ {ℓ} {A : Type ℓ} (put : ℤ → ℤ → A → A) where
  -- The two lines of the head: back by `arrow_size` along each axis.
  unfoldable pub draw_head : ℤ → ℤ → ℤ → ℤ → A → Option A
  draw_head x2 y2 back_x back_y a =
      draw_line put x2 y2 back_x y2 a >>= λ a. draw_line put x2 y2 x2 back_y a

  unfoldable pub draw_arrow : ℤ → ℤ → ℤ → ℤ → A → Option A
  unfolding draw_head ◌+ℤ◌ ◌-ℤ◌
  draw_arrow x1 y1 x2 y2 a =
      let right : Bool = leb_ℤ (pos 0) (x2 -ℤ x1) in
      let down : Bool = leb_ℤ (pos 0) (y2 -ℤ y1) in
      let back_x : ℤ = if right then x2 -ℤ pos 3 else x2 +ℤ pos 3 in
      let back_y : ℤ = if down then y2 -ℤ pos 3 else y2 +ℤ pos 3 in
      draw_line put x1 y1 x2 y2 a >>= draw_head x2 y2 back_x back_y

  module _ (font : ℕ → ℕ → ℕ) where
    -- The loop over `col`: bit 7 - col of the row, for the rounds that are left.
    unfoldable pub draw_bits : ℕ → ℕ → ℤ → ℤ → A → A
    unfolding ◌+ℤ◌
    draw_bits zero bits x y a = a
    draw_bits (suc rounds) bits x y a =
        draw_bits rounds bits (x +ℤ pos 1) y (if bits / 2 ^ rounds % 2 == 1 then put x y a else a)

    unfoldable pub draw_glyph : ℕ → ℕ → ℕ → ℤ → ℤ → A → A
    unfolding draw_bits ◌+ℤ◌
    draw_glyph zero row c x y a = a
    draw_glyph (suc rounds) row c x y a =
        draw_glyph rounds (row + 1) c x (y +ℤ pos 1) (draw_bits 8 (font c row) x y a)

    unfoldable pub draw_char : ℤ → ℤ → ℕ → A → A
    unfolding draw_glyph
    draw_char x y c a = draw_glyph 16 0 c x y a

    -- The loop over the string, whose variables are `x` and `y`.
    unfoldable pub draw_chars : ℤ → List ℕ → ℤ → ℤ → A → A
    unfolding draw_char ◌+ℤ◌
    draw_chars orig_x [] x y a = a
    draw_chars orig_x (c ∷ str) x y a = elim (c == 10) [
      | true ↦ draw_chars orig_x str orig_x (y +ℤ pos 16) a
      | false ↦ draw_chars orig_x str (x +ℤ pos 8) y (draw_char x y c a)
    ]

    unfoldable pub draw_string : ℤ → ℤ → List ℕ → A → A
    unfolding draw_chars
    draw_string x y str a = draw_chars x str x y a

    -- A text on a grid of cells: the character in column i of line j, from the cell it starts in.
    unfoldable pub in_cells : (ℕ → ℕ → ℕ → A → A) → List ℕ → ℕ → ℕ → A → A
    in_cells cell [] i j a = a
    in_cells cell (c ∷ str) i j a = elim (c == 10) [
      | true ↦ in_cells cell str 0 (j + 1) a
      | false ↦ in_cells cell str (i + 1) j (cell i j c a)
    ]

    abbrev pub at_cell : ℤ → ℤ → ℕ → ℕ → ℕ → A → A
    at_cell x y i j c = draw_char (x +ℤ pos (8 * i)) (y +ℤ pos (16 * j)) c

    draw_chars-in_cells :
        (x y : ℤ) (str : List ℕ) (i j : ℕ) (a : A)
        → draw_chars x str (x +ℤ pos (8 * i)) (y +ℤ pos (16 * j)) a
          ≡ in_cells (at_cell x y) str i j a
    unfolding draw_chars in_cells
    draw_chars-in_cells x y [] i j a = refl
    draw_chars-in_cells x y (c ∷ str) i j a =
        branches (c == 10)
          (ap (λ x'. draw_chars x str x' (y +ℤ pos (16 * j) +ℤ pos 16) a) (cell_first x)
            ∙ ap (λ y'. draw_chars x str (x +ℤ pos (8 * 0)) y' a) (cell_down y j)
            ∙ draw_chars-in_cells x y str 0 (j + 1) a)
          (ap (λ x'. draw_chars x str x' (y +ℤ pos (16 * j)) (at_cell x y i j c a)) (cell_right x i)
            ∙ draw_chars-in_cells x y str (i + 1) j (at_cell x y i j c a))

    -- A string is drawn with its character in column i of line j, counted from 0, at 8 * i pixels to
    -- the right of the start and 16 * j below it, where a newline ends a line and draws nothing.
    pub draw_string-in_cells :
        (x y : ℤ) (str : List ℕ) (a : A) → draw_string x y str a ≡ in_cells (at_cell x y) str 0 0 a
    unfolding draw_string
    draw_string-in_cells x y str a =
        ap (λ x'. draw_chars x str x' y a) (cell_first x)
        ∙ ap (λ y'. draw_chars x str (x +ℤ pos (8 * 0)) y' a) (cell_first_line y)
        ∙ draw_chars-in_cells x y str 0 0 a

chained {ℓ κ} :
    {A : Type ℓ} {B : Type κ} (o : Option A) (f : A → Option B)
    → (a : A) × (o ≡ some a)
    → ((a : A) → (b : B) × (f a ≡ some b))
    → (b : B) × ((o >>= f) ≡ some b)
chained o f (a, e) g = let (b, e') = g a in (b, ap (λ o. o >>= f) e ∙ e')

module _ {ℓ} {A : Type ℓ} (put : ℤ → ℤ → A → A) where
  draw_line-some : (x1 y1 x2 y2 : ℤ) (a : A) → (b : A) × (draw_line put x1 y1 x2 y2 a ≡ some b)
  draw_line-some x1 y1 x2 y2 a =
      let (path, goes, _, _) = draw_line-LinePath put x1 y1 x2 y2 a in (paint put path a, goes)

  draw_head-some :
      (x2 y2 back_x back_y : ℤ) (a : A) → (b : A) × (draw_head put x2 y2 back_x back_y a ≡ some b)
  unfolding draw_head
  draw_head-some x2 y2 back_x back_y a =
      chained (draw_line put x2 y2 back_x y2 a) (λ a. draw_line put x2 y2 x2 back_y a)
        (draw_line-some x2 y2 back_x y2 a) (λ a. draw_line-some x2 y2 x2 back_y a)

  -- Drawing an arrow ends, wherever its two ends are.
  pub draw_arrow-some :
      (x1 y1 x2 y2 : ℤ) (a : A) → (b : A) × (draw_arrow put x1 y1 x2 y2 a ≡ some b)
  unfolding draw_arrow
  draw_arrow-some x1 y1 x2 y2 a =
      let right : Bool = leb_ℤ (pos 0) (x2 -ℤ x1) in
      let down : Bool = leb_ℤ (pos 0) (y2 -ℤ y1) in
      let back_x : ℤ = if right then x2 -ℤ pos 3 else x2 +ℤ pos 3 in
      let back_y : ℤ = if down then y2 -ℤ pos 3 else y2 +ℤ pos 3 in
      chained (draw_line put x1 y1 x2 y2 a) (draw_head put x2 y2 back_x back_y)
        (draw_line-some x1 y1 x2 y2 a) (draw_head-some x2 y2 back_x back_y)
