-- ===== src/Ui/Drawing/Copied.antt =====
-- What the loops that copy a canvas leave at one pixel of the screen, in the mode of one byte per
-- pixel.
use waffle_os.Common.{
  ℕ, zero, suc, ◌+◌, ◌*◌, ◌%◌, ◌^◌, ◌≤◌, ◌<◌, ◌≡◌, ◌⊎◌, inl, inr, refl, sym, ap, subst, ◌∙◌, ℤ, pos,
  eq_of_parts, pos_part, neg_part, ◌+ℤ◌, arith, int_laws, if◌then◌else◌, ==_refl,
}
use native.Mathlib.Nat.{mul-le-mul_right, suc-mul, mul-one}
use waffle_os.Memory.Bytes.{Mem8, write}
use waffle_os.Graphics.{GraphicsContext, store_pixel, ctx_put_pixel}
use waffle_os.Graphics.Bounds.{RowsFit, if-unless, store_pixel-spares, off_screen}
use waffle_os.Graphics.Rectangles.{put_pixel-on}
use waffle_os.Ui.Drawing.{put_row, put_rows}

-- The address of a pixel.
abbrev pub pixel : GraphicsContext → ℕ → ℕ → ℕ
pixel ctx x y = ctx.buffer + (y * ctx.pitch + x * ctx.bytes_per_pixel)

-- The integer is another one than the number.
abbrev IsNot : ℤ → ℕ → Type 0
IsNot x n = (pos_part x < n + neg_part x) ⊎ (n + neg_part x < pos_part x)

pixels_apart :
    (pitch x y x' y' : ℕ) → x < pitch → x' < pitch → y < y' → y * pitch + x + 1 ≤ y' * pitch + x'
pixels_apart pitch x y x' y' on on' above =
    let rows = mul-le-mul_right pitch above in let next_row = suc-mul y pitch in omega arith

order : (a b : ℕ) → (a < b) ⊎ ((a ≡ b) ⊎ (b < a))
order a b = omega arith

-- One of the coordinates differs, so the places differ.
pub places_apart :
    (pitch x y x' y' : ℕ)
    → x < pitch
    → x' < pitch
    → ((x < x') ⊎ (x' < x)) ⊎ ((y < y') ⊎ (y' < y))
    → (y' * pitch + x' < y * pitch + x) ⊎ (y * pitch + x + 1 ≤ y' * pitch + x')
places_apart pitch x y x' y' on on' differ = elim (order y y') [
  | inl above ↦ inr (pixels_apart pitch x y x' y' on on' above)
  | inr (inl same) ↦ let rows = ap (λ r. r * pitch) same in omega arith
  | inr (inr below) ↦ let apart = pixels_apart pitch x' y' x y on' on below in inl (omega arith)
]

module _ (ctx : GraphicsContext) (one : ctx.bytes_per_pixel ≡ 1) (fit : RowsFit ctx) (px py : ℕ)
    (on_x : px < ctx.width) (on_y : py < ctx.height) where
  put_self :
      (color : ℕ) (m : Mem8)
      → ctx_put_pixel ctx (pos px) (pos py) color m (pixel ctx px py) ≡ color % 2 ^ 8
  unfolding write
  put_self color m =
      ap (λ f. f (pixel ctx px py)) (put_pixel-on ctx color px py m one on_x on_y)
      ∙ ap (λ b. if b then color % 2 ^ 8 else m (pixel ctx px py)) (==_refl (pixel ctx px py))

  put_other :
      (x y : ℤ) (color : ℕ) (m : Mem8)
      → IsNot x px ⊎ IsNot y py
      → ctx_put_pixel ctx x y color m (pixel ctx px py) ≡ m (pixel ctx px py)
  unfolding ctx_put_pixel
  put_other x y color m off =
      let place : ℕ = pixel ctx (pos_part x) (pos_part y) in
      if-unless (off_screen ctx x y) m (store_pixel ctx.bytes_per_pixel place color m)
        (pixel ctx px py)
        (λ on.
          let on_x' : pos_part x < ctx.width = ground arith in
          let differ : ((pos_part x < px) ⊎ (px < pos_part x))
              ⊎ ((pos_part y < py) ⊎ (py < pos_part y)) =
            ground arith in
          let wide = mul-one ctx.width in
          let p = mul-one (pos_part x) in
          let q = mul-one px in
          let wide' = ap (λ b. ctx.width * b) one in
          let p' = ap (λ b. pos_part x * b) one in
          let q' = ap (λ b. px * b) one in
          let apart =
            places_apart ctx.pitch (pos_part x) (pos_part y) px py (omega arith) (omega arith)
              differ in
          store_pixel-spares ctx.bytes_per_pixel place color (pixel ctx px py) m (grind arith))

  module _ (color : ℕ → Mem8 → ℕ) where
    -- A row of which the pixel is no part.
    row_off :
        (n offset : ℕ) (x y : ℤ) (m : Mem8)
        → IsNot y py ⊎ ((px + neg_part x < pos_part x) ⊎ (pos_part x + n ≤ px + neg_part x))
        → put_row ctx color n offset x y m (pixel ctx px py) ≡ m (pixel ctx px py)
    unfolding put_row
    row_off zero offset x y m off = refl
    row_off (suc n) offset x y m off =
        row_off n (offset + 1) (x +ℤ pos 1) y (ctx_put_pixel ctx x y (color offset m) m) (elim off [
          | inl other_row ↦ inl other_row
          | inr (inl before) ↦ inr (inl (grind int_laws))
          | inr (inr after) ↦ inr (inr (grind int_laws))
        ])
        ∙ put_other x y (color offset m) m (elim off [
          | inl other_row ↦ inr other_row
          | inr (inl before) ↦ inl (inr before)
          | inr (inr after) ↦ inl (inl (omega arith))
        ])

    pub rows_off :
        (n width offset : ℕ) (x y : ℤ) (m : Mem8)
        → ((px + neg_part x < pos_part x) ⊎ (pos_part x + width ≤ px + neg_part x))
          ⊎ ((py + neg_part y < pos_part y) ⊎ (pos_part y + n ≤ py + neg_part y))
        → put_rows ctx color n width offset x y m (pixel ctx px py) ≡ m (pixel ctx px py)
    unfolding put_rows
    rows_off zero width offset x y m off = refl
    rows_off (suc n) width offset x y m off =
        rows_off n width (offset + width) x (y +ℤ pos 1) (put_row ctx color width offset x y m)
          (elim off [
            | inl beside ↦ inl beside
            | inr (inl before) ↦ inr (inl (grind int_laws))
            | inr (inr after) ↦ inr (inr (grind int_laws))
          ])
        ∙ row_off width offset x y m (elim off [
          | inl beside ↦ inr beside
          | inr (inl before) ↦ inl (inr before)
          | inr (inr after) ↦ inl (inl (omega arith))
        ])

    -- No pixel put changes the colour that is read at an offset.
    abbrev pub Unmoved : ℕ → Type 0
    Unmoved offset =
        (x y : ℤ) (c : ℕ) (m : Mem8) → color offset (ctx_put_pixel ctx x y c m) ≡ color offset m

    row_keeps :
        (k n offset : ℕ) (x y : ℤ) (m : Mem8)
        → Unmoved k
        → color k (put_row ctx color n offset x y m) ≡ color k m
    unfolding put_row
    row_keeps k zero offset x y m still = refl
    row_keeps k (suc n) offset x y m still =
        row_keeps k n (offset + 1) (x +ℤ pos 1) y (ctx_put_pixel ctx x y (color offset m) m) still
        ∙ still x y (color offset m) m

    row_on :
        (n offset k : ℕ) (x y : ℤ) (m : Mem8)
        → k < n
        → pos_part x + k ≡ px + neg_part x
        → pos py ≡ y
        → Unmoved (offset + k)
        → put_row ctx color n offset x y m (pixel ctx px py) ≡ color (offset + k) m % 2 ^ 8
    unfolding put_row
    row_on zero offset k x y m below at_x at_y still = absurd (omega arith)
    row_on (suc n) offset zero x y m below at_x at_y still =
        let first : pos px ≡ x = eq_of_parts (pos px) x (omega arith) in
        let c : ℕ = color offset m in
        let same : offset ≡ offset + 0 = omega arith in
        row_off n (offset + 1) (x +ℤ pos 1) y (ctx_put_pixel ctx x y c m)
          (inr (inl (grind int_laws)))
        ∙ ap (λ x'. ctx_put_pixel ctx x' y c m (pixel ctx px py)) (sym first)
        ∙ ap (λ y'. ctx_put_pixel ctx (pos px) y' c m (pixel ctx px py)) (sym at_y)
        ∙ put_self c m
        ∙ ap (λ o. color o m % 2 ^ 8) same
    row_on (suc n) offset (suc k) x y m below at_x at_y still =
        let same : offset + suc k ≡ offset + 1 + k = omega arith in
        let m' : Mem8 = ctx_put_pixel ctx x y (color offset m) m in
        row_on n (offset + 1) k (x +ℤ pos 1) y m' (omega arith) (grind int_laws) at_y
          (subst Unmoved same still)
        ∙ ap (λ o. color o m' % 2 ^ 8) (sym same)
        ∙ ap (λ c. c % 2 ^ 8) (still x y (color offset m) m)

    pub rows_on :
        (n width offset i j : ℕ) (x y : ℤ) (m : Mem8)
        → i < width
        → j < n
        → pos_part x + i ≡ px + neg_part x
        → pos_part y + j ≡ py + neg_part y
        → Unmoved (offset + (j * width + i))
        → put_rows ctx color n width offset x y m (pixel ctx px py)
          ≡ color (offset + (j * width + i)) m % 2 ^ 8
    unfolding put_rows
    rows_on zero width offset i j x y m in_row in_rows at_x at_y still = absurd (omega arith)
    rows_on (suc n) width offset i zero x y m in_row in_rows at_x at_y still =
        let first : pos py ≡ y = eq_of_parts (pos py) y (omega arith) in
        let same : offset + (0 * width + i) ≡ offset + i = omega arith in
        rows_off n width (offset + width) x (y +ℤ pos 1) (put_row ctx color width offset x y m)
          (inr (inl (grind int_laws)))
        ∙ row_on width offset i x y m in_row at_x first (subst Unmoved same still)
        ∙ ap (λ o. color o m % 2 ^ 8) (sym same)
    rows_on (suc n) width offset i (suc j) x y m in_row in_rows at_x at_y still =
        let next_row = suc-mul j width in
        let same : offset + (suc j * width + i) ≡ offset + width + (j * width + i) = omega arith in
        let m' : Mem8 = put_row ctx color width offset x y m in
        rows_on n width (offset + width) i j x (y +ℤ pos 1) m' in_row (omega arith) at_x
          (grind int_laws) (subst Unmoved same still)
        ∙ ap (λ o. color o m' % 2 ^ 8) (sym same)
        ∙ ap (λ c. c % 2 ^ 8) (row_keeps (offset + (suc j * width + i)) width offset x y m still)
