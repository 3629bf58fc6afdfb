-- ===== src/Ui/Drawing/Clearing.antt =====
-- What drawing a canvas shows once `canvas_clear` or `create_canvas` of libs/ui/ui_widget.c has
-- filled it.
use waffle_os.Common.{
  ℕ, zero, suc, ◌+◌, ◌*◌, ◌%◌, ◌^◌, ◌≤◌, ◌<◌, ◌≡◌, ◌⊎◌, inl, inr, refl, sym, ap, ◌∙◌, Bool, true,
  false, ◌&&◌, if◌then◌else◌, ℤ, pos, pos_part, neg_part, ltb_ℤ, leb_ℤ, ◌+ℤ◌, ◌≤ℤ◌, arith,
}
use native.Mathlib.Nat.{mul_comm}
use waffle_os.Memory.Bytes.{Mem8}
use waffle_os.Graphics.{GraphicsContext}
use waffle_os.Graphics.Bounds.{RowsFit, pixel-within}
use waffle_os.Ui.{UiWidget, Window}
use waffle_os.Ui.Canvas.{Desktop, read_word, store_word, fill_cells, cell_count, canvas_clear}
use waffle_os.Ui.Drawing.{draw_widget}
use waffle_os.Ui.Drawing.Copied.{pixel}
use waffle_os.Ui.Drawing.Shown.{
  store_word-apart, store_word-low, same_word, cell-below, IsShown, spot_cell, hit_lem, missed_lem,
}
use waffle_os.Ui.Drawing.Pixels.{is_a_canvas, chosen, draw_widget-bytes}

fill_cells-apart :
    (n a color b : ℕ) (m : Mem8) → (b < a) ⊎ (a + 4 * n ≤ b) → fill_cells n a color m b ≡ m b
unfolding fill_cells
fill_cells-apart zero a color b m apart = refl
fill_cells-apart (suc n) a color b m apart =
    fill_cells-apart n (a + 4) color b (store_word a color m) (grind arith)
    ∙ store_word-apart a color b m (grind arith)

fill_cells-low :
    (n a color k : ℕ) (m : Mem8)
    → k < n
    → read_word (a + 4 * k) (fill_cells n a color m) % 2 ^ 8 ≡ color % 2 ^ 8
unfolding fill_cells
fill_cells-low zero a color k m below = absurd (omega arith)
fill_cells-low (suc n) a color zero m below =
    let first : a + 4 * 0 ≡ a = omega arith in
    let m' : Mem8 = store_word a color m in
    ap (λ p. read_word p (fill_cells n (a + 4) color m') % 2 ^ 8) first
    ∙ ap (λ c. c % 2 ^ 8)
        (same_word a (fill_cells n (a + 4) color m') m'
          (λ i small. fill_cells-apart n (a + 4) color (a + i) m' (inl (omega arith))))
    ∙ store_word-low a color m
fill_cells-low (suc n) a color (suc k) m below =
    let next : a + 4 * suc k ≡ a + 4 + 4 * k = omega arith in
    ap (λ p. read_word p (fill_cells n (a + 4) color (store_word a color m)) % 2 ^ 8) next
    ∙ fill_cells-low n (a + 4) color k (store_word a color m) (omega arith)

-- The pixel of the screen lies in the rectangle of these integers.
abbrev pub covers : ℤ → ℤ → ℤ → ℤ → ℕ → ℕ → Bool
covers x y width height px py =
    (leb_ℤ x (pos px) && ltb_ℤ (pos px) (x +ℤ width))
    && (leb_ℤ y (pos py) && ltb_ℤ (pos py) (y +ℤ height))

covers-hit :
    (x y width height : ℤ) (px py i j : ℕ)
    → i < pos_part width
    → j < pos_part height
    → pos_part x + i ≡ px + neg_part x
    → pos_part y + j ≡ py + neg_part y
    → covers x y width height px py ≡ true
unfolding ◌+ℤ◌
covers-hit x y width height px py i j in_row in_rows at_x at_y = ground arith

-- Off one axis.
abbrev Past : ℤ → ℤ → ℕ → Type 0
Past x width px = (px + neg_part x < pos_part x) ⊎ (pos_part x + pos_part width ≤ px + neg_part x)

within_axis-Past :
    (x width : ℤ) (px : ℕ)
    → Past x width px
    → (leb_ℤ x (pos px) && ltb_ℤ (pos px) (x +ℤ width)) ≡ false
unfolding ◌+ℤ◌
within_axis-Past x width px past = ground arith

covers-missed :
    (x y width height : ℤ) (px py : ℕ)
    → Past x width px ⊎ Past y height py
    → covers x y width height px py ≡ false
covers-missed x y width height px py (inl past) =
    ap (λ b. b && (leb_ℤ y (pos py) && ltb_ℤ (pos py) (y +ℤ height)))
      (within_axis-Past x width px past)
covers-missed x y width height px py (inr past) =
    ap (λ b. (leb_ℤ x (pos px) && ltb_ℤ (pos px) (x +ℤ width)) && b)
      (within_axis-Past y height py past)
    ∙ and_false (leb_ℤ x (pos px) && ltb_ℤ (pos px) (x +ℤ width))
  where
    and_false : (b : Bool) → (b && false) ≡ false
    and_false true = refl
    and_false false = refl

cells :
    (width height : ℤ) → pos 0 ≤ℤ width → cell_count width height ≡ pos_part height * pos_part width
cells width height proper =
    let none_left : neg_part width ≡ 0 = ground arith in
    let p = ap (λ k. k * neg_part height) none_left in
    let q = mul_comm (pos_part width) (pos_part height) in omega arith

module _ (ctx : GraphicsContext) (one : ctx.bytes_per_pixel ≡ 1) (fit : RowsFit ctx) (px py : ℕ)
    (on_x : px < ctx.width) (on_y : py < ctx.height) (font font8 : ℕ → ℕ → ℕ) (d : Desktop)
    (canvas win : ℕ) (h : IsShown ctx d canvas win) where
  abbrev pub covered : Bool
  covered =
      let w : UiWidget = d.ui.widget_at canvas in
      let parent : Window = d.ui.window_at win in
      covers (parent.x +ℤ w.x) (parent.y +ℤ w.y) w.width w.height px py

  pub filled_lem :
      (color : ℕ) (m : Mem8)
      → pos 0 ≤ℤ (d.ui.widget_at canvas).width
      → draw_widget ctx font font8 d canvas win
          (fill_cells
            (cell_count (d.ui.widget_at canvas).width (d.ui.widget_at canvas).height)
            (d.ui.widget_at canvas).canvas_buffer
            color
            m)
          (pixel ctx px py)
        ≡ (if covered then color % 2 ^ 8 else m (pixel ctx px py))
  filled_lem color m proper =
      let w : UiWidget = d.ui.widget_at canvas in
      let x : ℤ = (d.ui.window_at win).x +ℤ w.x in
      let y : ℤ = (d.ui.window_at win).y +ℤ w.y in
      let count = cells w.width w.height proper in
      let filled : Mem8 = fill_cells (cell_count w.width w.height) w.canvas_buffer color m in
      elim (spot_cell ctx one fit px py on_x on_y w x y) [
        | inl off ↦
            let within =
              pixel-within ctx.width ctx.height ctx.pitch ctx.bytes_per_pixel px py fit on_x on_y in
            missed_lem ctx one fit px py on_x on_y font font8 d canvas win h filled off
            ∙ fill_cells-apart (cell_count w.width w.height) w.canvas_buffer color (pixel ctx px py)
                m (grind (arith, h.apart))
            ∙ sym (
                chosen covered false (color % 2 ^ 8) (m (pixel ctx px py))
                  (covers-missed x y w.width w.height px py off))
        | inr (i, j, (in_row, in_rows, at_x, at_y)) ↦
            let cell = cell-below (pos_part w.width) (pos_part w.height) i j in_row in_rows in
            hit_lem ctx one fit px py on_x on_y font font8 d canvas win h i j filled
              (in_row, in_rows, at_x, at_y)
            ∙ fill_cells-low (cell_count w.width w.height) w.canvas_buffer color
                (j * pos_part w.width + i) m (omega arith)
            ∙ sym (
                chosen covered true (color % 2 ^ 8) (m (pixel ctx px py))
                  (covers-hit x y w.width w.height px py i j in_row in_rows at_x at_y))
      ]

module _ (ctx : GraphicsContext) (d : Desktop) (canvas win : ℕ) (h : IsShown ctx d canvas win) where
  canvas_clear-filled :
      (color : ℕ)
      → canvas_clear canvas color d ≡ record d {
        bytes =
            fill_cells
              (cell_count (d.ui.widget_at canvas).width (d.ui.widget_at canvas).height)
              (d.ui.widget_at canvas).canvas_buffer
              color
              d.bytes;
      }
  unfolding canvas_clear
  canvas_clear-filled color =
      let w : UiWidget = d.ui.widget_at canvas in
      let after : Desktop = record d {
        bytes = fill_cells (cell_count w.width w.height) w.canvas_buffer color d.bytes;
      } in
      ap (λ b. if b then d else after) (is_a_canvas ctx d canvas win h)

-- In a mode of one byte per pixel whose rows hold the pixels of the screen, let a canvas of a window
-- have its pixels apart from those of the drawing target, and a width that is not negative. When it
-- is cleared and then drawn, the pixels of the screen that lie in its rectangle have the low byte of
-- the colour, and the others have what they had before both.
canvas_clear-shown :
    (ctx : GraphicsContext) (font font8 : ℕ → ℕ → ℕ) (d : Desktop) (canvas win color px py : ℕ)
    → ctx.bytes_per_pixel ≡ 1
    → RowsFit ctx
    → IsShown ctx d canvas win
    → pos 0 ≤ℤ (d.ui.widget_at canvas).width
    → px < ctx.width
    → py < ctx.height
    → draw_widget ctx font font8
        (canvas_clear canvas color d)
        canvas
        win
        (canvas_clear canvas color d).bytes
        (pixel ctx px py)
      ≡ (if covers
            ((d.ui.window_at win).x +ℤ (d.ui.widget_at canvas).x)
            ((d.ui.window_at win).y +ℤ (d.ui.widget_at canvas).y)
            (d.ui.widget_at canvas).width
            (d.ui.widget_at canvas).height
            px
            py
          then color % 2 ^ 8
          else d.bytes (pixel ctx px py))
canvas_clear-shown ctx font font8 d canvas win color px py one fit h proper on_x on_y =
    let w : UiWidget = d.ui.widget_at canvas in
    let m : Mem8 = fill_cells (cell_count w.width w.height) w.canvas_buffer color d.bytes in
    ap (λ d'. draw_widget ctx font font8 d' canvas win d'.bytes (pixel ctx px py))
      (canvas_clear-filled ctx d canvas win h color)
    ∙ ap (λ f. f (pixel ctx px py)) (draw_widget-bytes ctx font font8 d m m canvas win)
    ∙ filled_lem ctx one fit px py on_x on_y font font8 d canvas win h color d.bytes proper
