-- ===== src/Graphics.antt =====
-- Drawing into a buffer of pixels: source/kernel/libs/ui/graphics_context.c and the routines of
-- source/kernel/drivers/display.c. An int is an integer; the coordinates are taken to be small
-- enough that no sum of them overflows. `volatile` makes no difference to a memory that only
-- the program writes.
pub mod Lines
pub mod Spans
pub mod Bounds
pub mod Shapes
pub mod Styled
pub mod Rectangles
mod Tests
use waffle_os.Common.{
  ℕ, zero, suc, ◌+◌, ◌-◌, ◌*◌, ◌/◌, ◌%◌, ◌^◌, Bool, true, false, ◌&&◌, ◌||◌, List, [], ◌∷◌, Option,
  none, some, ltb, leb, ◌==◌, if◌then◌else◌, ℤ, pos, negsuc, pos_part, neg_part, sub_ℕ, ltb_ℤ,
  leb_ℤ, eqb_ℤ, ◌+ℤ◌, ◌-ℤ◌,
}
use waffle_os.Memory.Bytes.{Mem8, write, write_word}

-- `buffer` is an address.
pub record GraphicsContext : Type 0 where
  pub buffer : ℕ
  pub width : ℕ
  pub height : ℕ
  pub pitch : ℕ
  pub bytes_per_pixel : ℕ

unfoldable pub create_context : ℕ → ℕ → ℕ → ℕ → GraphicsContext
create_context buffer width height bytes_per_pixel = record {
  buffer = buffer;
  width = width;
  height = height;
  pitch = width;
  bytes_per_pixel = bytes_per_pixel;
}

-- `switch (bytes_per_pixel)`
unfoldable pub store_pixel : ℕ → ℕ → ℕ → Mem8 → Mem8
unfolding write write_word
store_pixel bytes_per_pixel a color m =
    if bytes_per_pixel == 1
    then write m a (color % 2 ^ 8)
    else if bytes_per_pixel == 2
    then write (write m a (color % 2 ^ 8)) (a + 1) (color / 2 ^ 8 % 2 ^ 8)
    else if bytes_per_pixel == 4
    then write_word m a (color % 2 ^ 8) (color / 2 ^ 8 % 2 ^ 8) (color / 2 ^ 16 % 2 ^ 8)
        (color / 2 ^ 24 % 2 ^ 8)
    else m

unfoldable pub ctx_put_pixel : GraphicsContext → ℤ → ℤ → ℕ → Mem8 → Mem8
unfolding store_pixel
ctx_put_pixel ctx x y color m =
    let outside : Bool =
      ltb_ℤ x (pos 0)
      || (leb_ℤ (pos ctx.width) x || (ltb_ℤ y (pos 0) || leb_ℤ (pos ctx.height) y)) in
    let offset : ℕ = pos_part y * ctx.pitch + pos_part x * ctx.bytes_per_pixel in
    if outside then m else store_pixel ctx.bytes_per_pixel (ctx.buffer + offset) color m

-- The inner loop of `ctx_draw_rect`, with the rounds that are left.
unfoldable pub draw_row : ℕ → GraphicsContext → ℤ → ℤ → ℕ → Mem8 → Mem8
unfolding ctx_put_pixel ◌+ℤ◌
draw_row zero ctx x y color m = m
draw_row (suc n) ctx x y color m =
    draw_row n ctx (x +ℤ pos 1) y color (ctx_put_pixel ctx x y color m)

unfoldable pub draw_rows : ℕ → ℕ → GraphicsContext → ℤ → ℤ → ℕ → Mem8 → Mem8
unfolding draw_row
draw_rows zero width ctx x y color m = m
draw_rows (suc n) width ctx x y color m =
    draw_rows n width ctx x (y +ℤ pos 1) color (draw_row width ctx x y color m)

-- A width or a height below 1 makes no round.
unfoldable pub ctx_draw_rect : GraphicsContext → ℤ → ℤ → ℤ → ℤ → ℕ → Mem8 → Mem8
unfolding draw_rows
ctx_draw_rect ctx x y width height color m =
    draw_rows (pos_part height) (pos_part width) ctx x y color m

-- One side of the clipping of `draw_rect`: the start and the length of a span of `size` pixels.
unfoldable pub clip : ℕ → ℤ → ℤ → ℤ × ℤ
unfolding ◌+ℤ◌ ◌-ℤ◌
clip size start length =
    let length' : ℤ = if ltb_ℤ start (pos 0) then length +ℤ start else length in
    let start' : ℤ = if ltb_ℤ start (pos 0) then pos 0 else start in
    (start', if ltb_ℤ (pos size) (start' +ℤ length') then pos size -ℤ start' else length')

-- `row_ptr[i] = (uint8_t)color;`
unfoldable pub fill_row : ℕ → ℕ → ℕ → Mem8 → Mem8
unfolding write
fill_row zero row_ptr color m = m
fill_row (suc n) row_ptr color m = fill_row n (row_ptr + 1) color (write m row_ptr (color % 2 ^ 8))

-- The loop over `j` for one byte per pixel.
unfoldable pub fill_rows : ℕ → ℕ → GraphicsContext → ℕ → ℕ → ℕ → Mem8 → Mem8
unfolding fill_row
fill_rows zero width ctx x y color m = m
fill_rows (suc n) width ctx x y color m =
    fill_rows n width ctx x (y + 1) color
      (fill_row width (ctx.buffer + (y * ctx.pitch + x * ctx.bytes_per_pixel)) color m)

-- `draw_rect` of the display in the mode that the kernel sets, which has one byte per pixel. The
-- context holds the drawing target and the size of the screen.
unfoldable pub draw_rect : GraphicsContext → ℤ → ℤ → ℤ → ℤ → ℕ → Mem8 → Mem8
unfolding clip fill_rows
draw_rect ctx x y width height color m =
    let (x', width') = clip ctx.width x width in
    let (y', height') = clip ctx.height y height in
    let is_empty : ℤ → ℤ → Bool = λ w h. leb_ℤ w (pos 0) || leb_ℤ h (pos 0) in
    if is_empty width height
    then m
    else if is_empty width' height'
    then m
    else fill_rows (pos_part height') (pos_part width') ctx (pos_part x') (pos_part y') color m

-- The variables of the loop of `ctx_draw_line`.
pub record LineState : Type 0 where
  pub x1 : ℤ
  pub y1 : ℤ
  pub err : ℤ

module _ (dx dy sx sy : ℤ) where
  unfoldable pub step_x : ℤ → LineState → LineState
  unfolding ◌+ℤ◌ ◌-ℤ◌
  step_x e2 s =
      if ltb_ℤ (pos 0 -ℤ dy) e2 then record { x1 = s.x1 +ℤ sx; y1 = s.y1; err = s.err -ℤ dy } else s

  unfoldable pub step_y : ℤ → LineState → LineState
  unfolding ◌+ℤ◌
  step_y e2 s = if ltb_ℤ e2 dx then record { x1 = s.x1; y1 = s.y1 +ℤ sy; err = s.err +ℤ dx } else s

  -- `e2` is twice the error from before both steps.
  unfoldable pub line_step : LineState → LineState
  unfolding step_x step_y
  line_step s = let e2 : ℤ = s.err +ℤ s.err in step_y e2 (step_x e2 s)

  -- `while (1)`, with fuel; `put` draws a pixel.
  unfoldable pub line_loop {ℓ} :
      {A : Type ℓ} → (ℤ → ℤ → A → A) → ℤ → ℤ → ℕ → LineState → A → Option A
  unfolding line_step
  line_loop put x2 y2 zero s a = none
  line_loop put x2 y2 (suc fuel) s a = elim (eqb_ℤ s.x1 x2 && eqb_ℤ s.y1 y2) [
    | true ↦ some (put s.x1 s.y1 a)
    | false ↦ line_loop put x2 y2 fuel (line_step s) (put s.x1 s.y1 a)
  ]

unfoldable pub difference : ℤ → ℤ → ℤ
unfolding ◌-ℤ◌
difference a b = if ltb_ℤ a b then b -ℤ a else a -ℤ b

unfoldable pub direction : ℤ → ℤ → ℤ
direction a b = if ltb_ℤ a b then pos 1 else negsuc 0

-- `ctx_draw_line` and `draw_line`, by the routine that puts a pixel.
unfoldable pub draw_line {ℓ} : {A : Type ℓ} → (ℤ → ℤ → A → A) → ℤ → ℤ → ℤ → ℤ → A → Option A
unfolding line_loop difference direction
draw_line put x1 y1 x2 y2 a =
    let dx : ℤ = difference x1 x2 in
    let dy : ℤ = difference y1 y2 in
    line_loop dx dy (direction x1 x2) (direction y1 y2) put x2 y2 (suc (pos_part dx + pos_part dy))
      (record { x1 = x1; y1 = y1; err = dx -ℤ dy }) a

-- `g_clrscr` in graphics mode.
unfoldable pub g_clrscr : GraphicsContext → ℕ → Mem8 → Mem8
unfolding draw_rows
g_clrscr ctx color m = draw_rows ctx.height ctx.width ctx (pos 0) (pos 0) color m
