-- ===== src/Ui/Drawing/Pixels.antt =====
-- What drawing a canvas shows after `canvas_draw_pixel` of libs/ui/ui_widget.c.
use waffle_os.Common.{
  ℕ, ◌+◌, ◌*◌, ◌%◌, ◌^◌, ◌<◌, ◌≡◌, ◌⊎◌, inl, inr, refl, sym, ap, ◌∙◌, Bool, true, false, ◌&&◌,
  if◌then◌else◌, ℤ, pos, pos_part, neg_part, eqb_ℤ, ◌+ℤ◌, arith,
}
use waffle_os.Memory.Bytes.{Mem8}
use waffle_os.Graphics.{GraphicsContext}
use waffle_os.Graphics.Bounds.{RowsFit, pixel-within}
use waffle_os.Ui.{UiWidget, Window}
use waffle_os.Ui.Canvas.{
  Desktop, read_word, store_word, canvas_draw_pixel, no_canvas, outside_canvas, is_canvas,
}
use waffle_os.Ui.Drawing.{draw_widget}
use waffle_os.Ui.Drawing.Copied.{pixel, places_apart}
use waffle_os.Ui.Drawing.Shown.{
  store_word-apart, store_word-low, same_word, cell-below, IsShown, spot_cell, hit_lem, missed_lem,
}

-- The cell (i, j) of the canvas is drawn on the pixel.
abbrev pub is_at : Desktop → ℕ → ℕ → ℕ → ℕ → ℕ → ℕ → Bool
is_at d canvas win i j px py =
    let w : UiWidget = d.ui.widget_at canvas in
    let parent : Window = d.ui.window_at win in
    eqb_ℤ (parent.x +ℤ w.x +ℤ pos i) (pos px) && eqb_ℤ (parent.y +ℤ w.y +ℤ pos j) (pos py)

both_at :
    (x y : ℤ) (i j px py : ℕ)
    → pos_part x + i ≡ px + neg_part x
    → pos_part y + j ≡ py + neg_part y
    → (eqb_ℤ (x +ℤ pos i) (pos px) && eqb_ℤ (y +ℤ pos j) (pos py)) ≡ true
unfolding ◌+ℤ◌
both_at x y i j px py at_x at_y = ground arith

not_at :
    (x y : ℤ) (i j px py : ℕ)
    → ((pos_part x + i < px + neg_part x) ⊎ (px + neg_part x < pos_part x + i))
      ⊎ ((pos_part y + j < py + neg_part y) ⊎ (py + neg_part y < pos_part y + j))
    → (eqb_ℤ (x +ℤ pos i) (pos px) && eqb_ℤ (y +ℤ pos j) (pos py)) ≡ false
unfolding ◌+ℤ◌
not_at x y i j px py off = ground arith

module _ (ctx : GraphicsContext) (d : Desktop) (canvas win : ℕ) (h : IsShown ctx d canvas win) where
  abbrev pub cell_place : ℕ → ℕ → ℕ
  cell_place i j =
      let w : UiWidget = d.ui.widget_at canvas in w.canvas_buffer + 4 * (j * pos_part w.width + i)

  pub is_a_canvas : no_canvas canvas (d.ui.widget_at canvas) ≡ false
  is_a_canvas =
      let w : UiWidget = d.ui.widget_at canvas in
      let typed : is_canvas w.type ≡ true = ap is_canvas h.type in
      ground (arith, h.some_canvas, h.some_buffer)

  canvas_draw_pixel-on :
      (i j color : ℕ)
      → i < pos_part (d.ui.widget_at canvas).width
      → j < pos_part (d.ui.widget_at canvas).height
      → canvas_draw_pixel canvas (pos i) (pos j) color d
        ≡ record d { bytes = store_word (cell_place i j) color d.bytes }
  unfolding canvas_draw_pixel
  canvas_draw_pixel-on i j color in_row in_rows =
      let w : UiWidget = d.ui.widget_at canvas in
      let within : outside_canvas w (pos i) (pos j) ≡ false = ground arith in
      let drawn : Desktop = record d { bytes = store_word (cell_place i j) color d.bytes } in
      ap (λ b. if b then d else if outside_canvas w (pos i) (pos j) then d else drawn) is_a_canvas
      ∙ ap (λ b. if b then d else drawn) within

  -- Storing into a cell changes no other cell, and no pixel of the screen.
  other_cell :
      (i j i' j' color : ℕ) (m : Mem8)
      → i < pos_part (d.ui.widget_at canvas).width
      → i' < pos_part (d.ui.widget_at canvas).width
      → ((i < i') ⊎ (i' < i)) ⊎ ((j < j') ⊎ (j' < j))
      → read_word (cell_place i' j') (store_word (cell_place i j) color m)
        ≡ read_word (cell_place i' j') m
  other_cell i j i' j' color m in_row in_row' differ =
      let wide = pos_part (d.ui.widget_at canvas).width in
      let apart = places_apart wide i j i' j' in_row in_row' differ in
      same_word (cell_place i' j') (store_word (cell_place i j) color m) m
        (λ k small. store_word-apart (cell_place i j) color (cell_place i' j' + k) m (grind arith))

  screen_kept :
      (px py i j color : ℕ) (m : Mem8)
      → RowsFit ctx
      → ctx.bytes_per_pixel ≡ 1
      → px < ctx.width
      → py < ctx.height
      → i < pos_part (d.ui.widget_at canvas).width
      → j < pos_part (d.ui.widget_at canvas).height
      → store_word (cell_place i j) color m (pixel ctx px py) ≡ m (pixel ctx px py)
  screen_kept px py i j color m fit one on_x on_y in_row in_rows =
      let w : UiWidget = d.ui.widget_at canvas in
      let cell = cell-below (pos_part w.width) (pos_part w.height) i j in_row in_rows in
      let within =
        pixel-within ctx.width ctx.height ctx.pitch ctx.bytes_per_pixel px py fit on_x on_y in
      store_word-apart (cell_place i j) color (pixel ctx px py) m (grind (arith, h.apart))

same_or_differ :
    (i j i' j' : ℕ) → ((i' ≡ i) × (j' ≡ j)) ⊎ (((i < i') ⊎ (i' < i)) ⊎ ((j < j') ⊎ (j' < j)))
same_or_differ i j i' j' = ground arith

pub chosen {ℓ} :
    {A : Type ℓ} (b v : Bool) (p q : A) → b ≡ v → (if b then p else q) ≡ (if v then p else q)
chosen b v p q e = ap (λ b. if b then p else q) e

-- Drawing a widget reads its pixels from the memory that it draws on.
pub draw_widget-bytes :
    (ctx : GraphicsContext) (font font8 : ℕ → ℕ → ℕ) (d : Desktop) (m m' : Mem8) (widget win : ℕ)
    → draw_widget ctx font font8 (record d { bytes = m }) widget win m'
      ≡ draw_widget ctx font font8 d widget win m'
unfolding draw_widget
draw_widget-bytes ctx font font8 d m m' widget win = refl

-- In a mode of one byte per pixel whose rows hold the pixels of the screen, let a canvas of a window
-- have its pixels apart from those of the drawing target, and draw its pixel (i, j), which lies
-- within it. When the widget is drawn then, the pixel of the screen at which that cell stands has
-- the low byte of the colour, and every other pixel of the screen is what drawing the widget would
-- have made it before.
pub canvas_draw_pixel-shown :
    (ctx : GraphicsContext) (font font8 : ℕ → ℕ → ℕ) (d : Desktop) (canvas win i j color px py : ℕ)
    → ctx.bytes_per_pixel ≡ 1
    → RowsFit ctx
    → IsShown ctx d canvas win
    → i < pos_part (d.ui.widget_at canvas).width
    → j < pos_part (d.ui.widget_at canvas).height
    → px < ctx.width
    → py < ctx.height
    → draw_widget ctx font font8
        (canvas_draw_pixel canvas (pos i) (pos j) color d)
        canvas
        win
        (canvas_draw_pixel canvas (pos i) (pos j) color d).bytes
        (pixel ctx px py)
      ≡ (if is_at d canvas win i j px py
          then color % 2 ^ 8
          else draw_widget ctx font font8 d canvas win d.bytes (pixel ctx px py))
canvas_draw_pixel-shown ctx font font8 d canvas win i j color px py one fit h in_row in_rows on_x
      on_y =
    let w : UiWidget = d.ui.widget_at canvas in
    let x : ℤ = (d.ui.window_at win).x +ℤ w.x in
    let y : ℤ = (d.ui.window_at win).y +ℤ w.y in
    let m : Mem8 = store_word (cell_place ctx d canvas win h i j) color d.bytes in
    let before : ℕ = draw_widget ctx font font8 d canvas win d.bytes (pixel ctx px py) in
    let hit = hit_lem ctx one fit px py on_x on_y font font8 d canvas win h in
    ap (λ d'. draw_widget ctx font font8 d' canvas win d'.bytes (pixel ctx px py))
      (canvas_draw_pixel-on ctx d canvas win h i j color in_row in_rows)
    ∙ ap (λ f. f (pixel ctx px py)) (draw_widget-bytes ctx font font8 d m m canvas win)
    ∙ elim (spot_cell ctx one fit px py on_x on_y w x y) [
      | inl off ↦
          let missed = missed_lem ctx one fit px py on_x on_y font font8 d canvas win h in
          missed m off
          ∙ screen_kept ctx d canvas win h px py i j color d.bytes fit one on_x on_y in_row in_rows
          ∙ sym (missed d.bytes off)
          ∙ sym (
              chosen (is_at d canvas win i j px py) false (color % 2 ^ 8) before
                (not_at x y i j px py (grind arith)))
      | inr (i', j', (in_row', in_rows', at_x, at_y)) ↦
          hit i' j' m (in_row', in_rows', at_x, at_y) ∙ elim (same_or_differ i j i' j') [
            | inl (same_i, same_j) ↦
                ap (λ k. read_word k m % 2 ^ 8) (rw (same_i, same_j))
                ∙ store_word-low (cell_place ctx d canvas win h i j) color d.bytes
                ∙ sym (
                    chosen (is_at d canvas win i j px py) true (color % 2 ^ 8) before
                      (both_at x y i j px py (omega arith) (omega arith)))
            | inr differ ↦
                ap (λ c. c % 2 ^ 8)
                  (other_cell ctx d canvas win h i j i' j' color d.bytes in_row in_row' differ)
                ∙ sym (hit i' j' d.bytes (in_row', in_rows', at_x, at_y))
                ∙ sym (
                    chosen (is_at d canvas win i j px py) false (color % 2 ^ 8) before
                      (not_at x y i j px py (grind arith)))
          ]
    ]
