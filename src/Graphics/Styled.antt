-- ===== src/Graphics/Styled.antt =====
-- Text in the style `FontStyle_8x8_Basic`: `draw_char_styled` and `draw_string_styled` of
-- drivers/display.c. The scale of this style is 1 and its cells have eight rows and eight columns,
-- so that the row and the column that the code computes in floating-point numbers are the ones of
-- the loops, exactly. The bitmaps `font8x8_basic` are an argument: the byte of a row of a character.
use waffle_os.Common.{
  ℕ, zero, suc, ◌+◌, ◌/◌, ◌%◌, ◌^◌, true, false, List, [], ◌∷◌, ◌==◌, if◌then◌else◌, ℤ, pos, ◌+ℤ◌,
  ◌≡◌, refl, ◌∙◌,
}
use waffle_os.Memory.Bytes.{Mem8}
use waffle_os.Graphics.Bounds.{Spares, if-either}

module _ {ℓ} {A : Type ℓ} (put : ℤ → ℤ → A → A) (font : ℕ → ℕ → ℕ) where
  -- The loop over `col` with the rounds that are left. The columns are inverted, so that the mask of
  -- a column is 1 << col.
  unfoldable pub draw_styled_bits : ℕ → ℕ → ℕ → ℤ → ℤ → A → A
  unfolding ◌+ℤ◌
  draw_styled_bits zero col bits x y a = a
  draw_styled_bits (suc rounds) col bits x y a =
      draw_styled_bits rounds (col + 1) bits (x +ℤ pos 1) y
        (if bits / 2 ^ col % 2 == 1 then put x y a else a)

  unfoldable pub draw_styled_rows : ℕ → ℕ → ℕ → ℤ → ℤ → A → A
  unfolding draw_styled_bits ◌+ℤ◌
  draw_styled_rows zero row c x y a = a
  draw_styled_rows (suc rounds) row c x y a =
      draw_styled_rows rounds (row + 1) c x (y +ℤ pos 1) (draw_styled_bits 8 0 (font c row) x y a)

  unfoldable pub draw_char_styled : ℤ → ℤ → ℕ → A → A
  unfolding draw_styled_rows
  draw_char_styled x y c a = draw_styled_rows 8 0 c x y a

  -- The loop over the string, whose variables are `x` and `y`.
  unfoldable pub draw_styled_chars : ℤ → List ℕ → ℤ → ℤ → A → A
  unfolding draw_char_styled ◌+ℤ◌
  draw_styled_chars orig_x [] x y a = a
  draw_styled_chars orig_x (c ∷ str) x y a = elim (c == 10) [
    | true ↦ draw_styled_chars orig_x str orig_x (y +ℤ pos 8) a
    | false ↦ draw_styled_chars orig_x str (x +ℤ pos 8) y (draw_char_styled x y c a)
  ]

  unfoldable pub draw_string_styled : ℤ → ℤ → List ℕ → A → A
  unfolding draw_styled_chars
  draw_string_styled x y str a = draw_styled_chars x str x y a

-- Such a text leaves a byte that no pixel touches.
module _ (put : ℤ → ℤ → Mem8 → Mem8) (a : ℕ) (spares : Spares a put) (font : ℕ → ℕ → ℕ) where
  draw_styled_bits-Spares :
      (n col bits : ℕ) (x y : ℤ) (m : Mem8) → draw_styled_bits put font n col bits x y m a ≡ m a
  unfolding draw_styled_bits
  draw_styled_bits-Spares zero col bits x y m = refl
  draw_styled_bits-Spares (suc n) col bits x y m =
      draw_styled_bits-Spares n (col + 1) bits (x +ℤ pos 1) y
        (if bits / 2 ^ col % 2 == 1 then put x y m else m)
      ∙ if-either (bits / 2 ^ col % 2 == 1) (put x y m) m a (spares x y m)

  draw_styled_rows-Spares :
      (n row c : ℕ) (x y : ℤ) (m : Mem8) → draw_styled_rows put font n row c x y m a ≡ m a
  unfolding draw_styled_rows
  draw_styled_rows-Spares zero row c x y m = refl
  draw_styled_rows-Spares (suc n) row c x y m =
      draw_styled_rows-Spares n (row + 1) c x (y +ℤ pos 1)
        (draw_styled_bits put font 8 0 (font c row) x y m)
      ∙ draw_styled_bits-Spares 8 0 (font c row) x y m

  pub draw_styled_chars-Spares :
      (orig_x x y : ℤ) (str : List ℕ) (m : Mem8)
      → draw_styled_chars put font orig_x str x y m a ≡ m a
  unfolding draw_styled_chars draw_char_styled
  draw_styled_chars-Spares orig_x x y [] m = refl
  draw_styled_chars-Spares orig_x x y (c ∷ str) m =
      elim (c == 10)
        as (λ b.
          elim b as (λ _. Mem8) [
            | true ↦ draw_styled_chars put font orig_x str orig_x (y +ℤ pos 8) m
            | false ↦
                draw_styled_chars put font orig_x str (x +ℤ pos 8) y
                  (draw_char_styled put font x y c m)
          ]
            a
          ≡ m a) [
            | true ↦ draw_styled_chars-Spares orig_x orig_x (y +ℤ pos 8) str m
            | false ↦
                draw_styled_chars-Spares orig_x (x +ℤ pos 8) y str
                  (draw_char_styled put font x y c m)
                ∙ draw_styled_rows-Spares 8 0 c x y m
          ]
