-- ===== src/Graphics/Rectangles.antt =====
-- The two routines that fill a rectangle: `ctx_draw_rect` of libs/ui/graphics_context.c, which puts
-- every pixel by itself, and `draw_rect` of drivers/display.c, which clips and fills rows.
use waffle_os.Common.{
  ℕ, zero, suc, ◌+◌, ◌*◌, ◌%◌, ◌^◌, ◌≤◌, ◌<◌, ◌≡◌, ◌⊎◌, inl, inr, refl, sym, ap, ◌∙◌, Bool, true,
  false, ◌||◌, if◌then◌else◌, ℤ, pos, negsuc, pos_part, leb_ℤ, ◌+ℤ◌, ◌-ℤ◌, ◌≤ℤ◌, arith,
}
use native.Mathlib.Nat.{mul-one}
use waffle_os.Memory.Bytes.{Mem8, write}
use waffle_os.Graphics.{
  GraphicsContext, store_pixel, ctx_put_pixel, draw_row, draw_rows, ctx_draw_rect, clip, fill_row,
  fill_rows, draw_rect,
}
use waffle_os.Graphics.Spans.{rounds, rounds_on, rounds-clip, clip_start, clip_length, clip-fits}

module _ (ctx : GraphicsContext) (color : ℕ) where
  abbrev pub place : ℕ → ℕ → ℕ
  place x y = ctx.buffer + (y * ctx.pitch + x * ctx.bytes_per_pixel)

  put_pixel-off_x :
      (y x : ℤ) (m : Mem8)
      → (x ≤ℤ negsuc 0) ⊎ (pos ctx.width ≤ℤ x)
      → ctx_put_pixel ctx x y color m ≡ m
  unfolding ctx_put_pixel
  put_pixel-off_x y x m off = ground arith

  put_pixel-off_y :
      (x y : ℤ) (m : Mem8)
      → (y ≤ℤ negsuc 0) ⊎ (pos ctx.height ≤ℤ y)
      → ctx_put_pixel ctx x y color m ≡ m
  unfolding ctx_put_pixel
  put_pixel-off_y x y m off = ground arith

  pub put_pixel-on :
      (x y : ℕ) (m : Mem8)
      → ctx.bytes_per_pixel ≡ 1
      → x < ctx.width
      → y < ctx.height
      → ctx_put_pixel ctx (pos x) (pos y) color m ≡ write m (place x y) (color % 2 ^ 8)
  unfolding ctx_put_pixel store_pixel
  put_pixel-on x y m one on_x on_y = ground arith

  row_rounds :
      (n : ℕ) (x y : ℤ) (m : Mem8)
      → draw_row n ctx x y color m ≡ rounds (λ x. ctx_put_pixel ctx x y color) n x m
  unfolding draw_row rounds
  row_rounds zero x y m = refl
  row_rounds (suc n) x y m = row_rounds n (x +ℤ pos 1) y (ctx_put_pixel ctx x y color m)

  rows_rounds :
      (n width : ℕ) (x y : ℤ) (m : Mem8)
      → draw_rows n width ctx x y color m ≡ rounds (λ y. draw_row width ctx x y color) n y m
  unfolding draw_rows rounds
  rows_rounds zero width x y m = refl
  rows_rounds (suc n) width x y m =
      rows_rounds n width x (y +ℤ pos 1) (draw_row width ctx x y color m)

  draw_row-off :
      (n : ℕ) (x y : ℤ) (m : Mem8)
      → (y ≤ℤ negsuc 0) ⊎ (pos ctx.height ≤ℤ y)
      → draw_row n ctx x y color m ≡ m
  unfolding draw_row
  draw_row-off zero x y m off = refl
  draw_row-off (suc n) x y m off =
      draw_row-off n (x +ℤ pos 1) y (ctx_put_pixel ctx x y color m) off ∙ put_pixel-off_y x y m off

  module _ (one : ctx.bytes_per_pixel ≡ 1) where
    beside : (x y : ℕ) → place (x + 1) y ≡ place x y + 1
    beside x y =
        let p = ap (λ b. x * b) one ∙ mul-one x in
        let q = ap (λ b. (x + 1) * b) one ∙ mul-one (x + 1) in omega arith

    rounds_on-fill_row :
        (n x y : ℕ) (m : Mem8)
        → (n ≡ 0) ⊎ (x + n ≤ ctx.width)
        → y < ctx.height
        → rounds_on (λ x. ctx_put_pixel ctx x (pos y) color) n x m ≡ fill_row n (place x y) color m
    unfolding rounds_on fill_row
    rounds_on-fill_row zero x y m fits on_y = refl
    rounds_on-fill_row (suc n) x y m fits on_y =
        let put : ℤ → Mem8 → Mem8 = λ x. ctx_put_pixel ctx x (pos y) color in
        ap (rounds_on put n (x + 1)) (put_pixel-on x y m one (omega arith) on_y)
        ∙ rounds_on-fill_row n (x + 1) y (write m (place x y) (color % 2 ^ 8)) (grind arith) on_y
        ∙ ap (λ a. fill_row n a color (write m (place x y) (color % 2 ^ 8))) (beside x y)

    -- The part of a row that is on the screen.
    draw_row-clip :
        (width x : ℤ) (y : ℕ) (m : Mem8)
        → y < ctx.height
        → draw_row (pos_part width) ctx x (pos y) color m
          ≡ fill_row
              (clip_length ctx.width x width)
              (place (clip_start ctx.width x width) y)
              color
              m
    draw_row-clip width x y m on_y =
        row_rounds (pos_part width) x (pos y) m
        ∙ rounds-clip (λ x. ctx_put_pixel ctx x (pos y) color) ctx.width
            (λ x m. put_pixel-off_x (pos y) x m) x width m
        ∙ rounds_on-fill_row (clip_length ctx.width x width) (clip_start ctx.width x width) y m
            (clip-fits ctx.width x width) on_y

    rounds_on-fill_rows :
        (n : ℕ) (width x : ℤ) (y : ℕ) (m : Mem8)
        → (n ≡ 0) ⊎ (y + n ≤ ctx.height)
        → rounds_on (λ y. draw_row (pos_part width) ctx x y color) n y m
          ≡ fill_rows n (clip_length ctx.width x width) ctx (clip_start ctx.width x width) y color m
    unfolding rounds_on fill_rows
    rounds_on-fill_rows zero width x y m fits = refl
    rounds_on-fill_rows (suc n) width x y m fits =
        ap (rounds_on (λ y. draw_row (pos_part width) ctx x y color) n (y + 1))
          (draw_row-clip width x y m (omega arith))
        ∙ rounds_on-fill_rows n width x (y + 1)
            (fill_row (clip_length ctx.width x width) (place (clip_start ctx.width x width) y) color
              m)
            (grind arith)

fill_rows-empty :
    (n : ℕ) (ctx : GraphicsContext) (x y color : ℕ) (m : Mem8) → fill_rows n 0 ctx x y color m ≡ m
unfolding fill_rows fill_row
fill_rows-empty zero ctx x y color m = refl
fill_rows-empty (suc n) ctx x y color m = fill_rows-empty n ctx x (y + 1) color m

abbrev clipped : GraphicsContext → ℤ → ℤ → ℤ → ℤ → ℕ → Mem8 → Mem8
clipped ctx x y width height color m =
    fill_rows (clip_length ctx.height y height) (clip_length ctx.width x width) ctx
      (clip_start ctx.width x width) (clip_start ctx.height y height) color m

guards {ℓ} :
    {A : Type ℓ} (b c : Bool) (r m : A)
    → (b ≡ true → r ≡ m)
    → (c ≡ true → r ≡ m)
    → (if b then m else if c then m else r) ≡ r
guards true c r m p q = sym (p refl)
guards false true r m p q = sym (q refl)
guards false false r m p q = refl

abbrev is_thin : ℤ → ℤ → Bool
is_thin w h = leb_ℤ w (pos 0) || leb_ℤ h (pos 0)

clip-empty : (size : ℕ) (x len : ℤ) → len ≤ℤ pos 0 → clip_length size x len ≡ 0
unfolding clip ◌+ℤ◌ ◌-ℤ◌
clip-empty size x len low = ground arith

is_thin-either : (w h : ℤ) → is_thin w h ≡ true → (w ≤ℤ pos 0) ⊎ (h ≤ℤ pos 0)
is_thin-either w h e = ground arith

low-zero : (w : ℤ) → w ≤ℤ pos 0 → pos_part w ≡ 0
low-zero w low = ground arith

clipped-empty :
    (ctx : GraphicsContext) (x y width height : ℤ) (color : ℕ) (m : Mem8)
    → (clip_length ctx.width x width ≡ 0) ⊎ (clip_length ctx.height y height ≡ 0)
    → clipped ctx x y width height color m ≡ m
unfolding fill_rows
clipped-empty ctx x y width height color m (inl none_wide) =
    ap
      (λ w.
        fill_rows (clip_length ctx.height y height) w ctx (clip_start ctx.width x width)
          (clip_start ctx.height y height) color m)
      none_wide
    ∙ fill_rows-empty (clip_length ctx.height y height) ctx (clip_start ctx.width x width)
        (clip_start ctx.height y height) color m
clipped-empty ctx x y width height color m (inr none_tall) =
    ap
      (λ h.
        fill_rows h (clip_length ctx.width x width) ctx (clip_start ctx.width x width)
          (clip_start ctx.height y height) color m)
      none_tall

draw_rect-clipped :
    (ctx : GraphicsContext) (x y width height : ℤ) (color : ℕ) (m : Mem8)
    → draw_rect ctx x y width height color m ≡ clipped ctx x y width height color m
unfolding draw_rect
draw_rect-clipped ctx x y width height color m =
    let wide : ℤ = (clip ctx.width x width).1 in
    let tall : ℤ = (clip ctx.height y height).1 in
    guards (is_thin width height) (is_thin wide tall) (clipped ctx x y width height color m) m
      (λ e. clipped-empty ctx x y width height color m (elim (is_thin-either width height e) [
        | inl a ↦ inl (clip-empty ctx.width x width a)
        | inr b ↦ inr (clip-empty ctx.height y height b)
      ]))
      (λ e. clipped-empty ctx x y width height color m (elim (is_thin-either wide tall e) [
        | inl a ↦ inl (low-zero wide a)
        | inr b ↦ inr (low-zero tall b)
      ]))

-- In a mode of one byte per pixel, filling a rectangle row by row after clipping it to the screen
-- leaves the same memory, at every address, as putting every pixel of it by itself with the pixels
-- off the screen left out. The rectangle may lie anywhere, also partly or wholly off the screen, and
-- its width and height may be zero or negative.
pub draw_rect-ctx_draw_rect :
    (ctx : GraphicsContext) (x y width height : ℤ) (color : ℕ) (m : Mem8)
    → ctx.bytes_per_pixel ≡ 1
    → ctx_draw_rect ctx x y width height color m ≡ draw_rect ctx x y width height color m
unfolding ctx_draw_rect
draw_rect-ctx_draw_rect ctx x y width height color m one =
    rows_rounds ctx color (pos_part height) (pos_part width) x y m
    ∙ rounds-clip (λ y. draw_row (pos_part width) ctx x y color) ctx.height
        (λ y m. draw_row-off ctx color (pos_part width) x y m) y height m
    ∙ rounds_on-fill_rows ctx color one (clip_length ctx.height y height) width x
        (clip_start ctx.height y height) m (clip-fits ctx.height y height)
    ∙ sym (draw_rect-clipped ctx x y width height color m)
