-- ===== src/Ui/Drawing/Creating.antt =====
-- A new canvas: `create_canvas` of libs/ui/ui_widget.c, and what drawing it shows.
use waffle_os.Common.{
  ℕ, ◌+◌, ◌*◌, ◌≤◌, ◌<◌, ◌≡◌, ◌≢◌, ◌⊎◌, sym, ap, subst, set, ◌∙◌, false, ◌==◌, ◌||◌, leb,
  if◌then◌else◌, ℤ, pos, pos_part, ◌+ℤ◌, ◌≤ℤ◌, arith, ==_refl,
}
use waffle_os.Memory.Bytes.{Mem8}
use waffle_os.Graphics.{GraphicsContext}
use waffle_os.Graphics.Bounds.{RowsFit}
use waffle_os.Ui.{UiWidget, Window, Ui, add_widget, set_widget, max_widgets_per_window}
use waffle_os.Ui.Canvas.{new_canvas, Desktop, fill_cells, cell_count, create_canvas}
use waffle_os.Ui.Drawing.{draw_widget}
use waffle_os.Ui.Drawing.Copied.{pixel}
use waffle_os.Ui.Drawing.Shown.{IsShown}
use waffle_os.Ui.Drawing.Clearing.{covers, filled_lem}

module _ (win : ℕ) (x y width height : ℤ) (allocated buffer : ℕ) (d : Desktop) where
  abbrev fields : UiWidget
  fields = new_canvas x y width height buffer (d.ui.widget_at allocated)

  abbrev with_canvas : Ui
  with_canvas = add_widget win allocated (set_widget d.ui allocated fields)

  abbrev blackened : Mem8
  blackened = fill_cells (cell_count width height) buffer 0 d.bytes

  create_canvas-room :
      win ≢ 0
      → (d.ui.window_at win).widget_count < 10
      → allocated ≢ 0
      → buffer ≢ 0
      → create_canvas win x y width height allocated buffer d
        ≡ (allocated, record d { ui = with_canvas; bytes = blackened })
  unfolding create_canvas
  create_canvas-room some_window room some_memory some_pixels =
      let made : ℕ × Desktop = (allocated, record d { ui = with_canvas; bytes = blackened }) in
      let without : ℕ × Desktop = (0, record d { ui = set_widget d.ui allocated fields }) in
      let guard : (win == 0 || leb max_widgets_per_window (d.ui.window_at win).widget_count)
          ≡ false =
        ground arith in
      let real : (allocated == 0) ≡ false = ground arith in
      let held : (buffer == 0) ≡ false = ground arith in
      ap
        (λ b.
          if b
          then (0, d)
          else if allocated == 0
          then (0, d)
          else if buffer == 0
          then without
          else made)
        guard
      ∙ ap (λ b. if b then (0, d) else if buffer == 0 then without else made) real
      ∙ ap (λ b. if b then without else made) held

  stored : with_canvas.widget_at allocated ≡ fields
  unfolding add_widget
  stored = ap (λ b. if b then fields else d.ui.widget_at allocated) (==_refl allocated)

  abbrev holder : Window
  holder =
      let w : Window = d.ui.window_at win in
      record w {
        widgets = set w.widgets w.widget_count allocated;
        widget_count = w.widget_count + 1;
      }

  held_by : with_canvas.window_at win ≡ holder
  unfolding add_widget
  held_by = ap (λ b. if b then holder else d.ui.window_at win) (==_refl win)

-- The pixels lie apart from those of the drawing target.
abbrev pub PixelsApart : GraphicsContext → ℤ → ℤ → ℕ → Type 0
PixelsApart ctx width height buffer =
    (buffer + 4 * (pos_part height * pos_part width) ≤ ctx.buffer)
    ⊎ (ctx.buffer + ctx.height * ctx.pitch ≤ buffer)

-- In a mode of one byte per pixel whose rows hold the pixels of the screen, a window has room for one
-- more widget, and there is memory for a canvas and for its pixels, apart from those of the drawing
-- target; its width is not negative. Then creating the canvas and drawing it makes black the pixels
-- of the screen in its rectangle, and leaves the others as they were before both.
pub create_canvas-shown :
    (ctx : GraphicsContext) (font font8 : ℕ → ℕ → ℕ) (d : Desktop) (win : ℕ) (x y width height : ℤ)
    (allocated buffer px py : ℕ)
    → ctx.bytes_per_pixel ≡ 1
    → RowsFit ctx
    → win ≢ 0
    → (d.ui.window_at win).widget_count < 10
    → allocated ≢ 0
    → buffer ≢ 0
    → PixelsApart ctx width height buffer
    → pos 0 ≤ℤ width
    → px < ctx.width
    → py < ctx.height
    → (let (widget, d') = create_canvas win x y width height allocated buffer d in
        draw_widget ctx font font8 d' widget win d'.bytes (pixel ctx px py))
      ≡ (if covers ((d.ui.window_at win).x +ℤ x) ((d.ui.window_at win).y +ℤ y) width height px py
          then 0
          else d.bytes (pixel ctx px py))
create_canvas-shown ctx font font8 d win x y width height allocated buffer px py one fit some_window
      room some_memory some_pixels apart proper on_x on_y =
    let place : ℕ = pixel ctx px py in
    let m : Mem8 = blackened win x y width height allocated buffer d in
    let ui' : Ui = with_canvas win x y width height allocated buffer d in
    let d' : Desktop = record d { ui = ui'; bytes = m } in
    let widget = stored win x y width height allocated buffer d in
    let shown : IsShown ctx d' allocated win = record {
      some_canvas = some_memory;
      some_window = some_window;
      type = ap (λ w. w.type) widget;
      some_buffer = subst (λ w. w.canvas_buffer ≢ 0) (sym widget) some_pixels;
      apart = subst (λ w. PixelsApart ctx w.width w.height w.canvas_buffer) (sym widget) apart;
    } in
    ap (λ r. draw_widget ctx font font8 r.1 r.0 win r.1.bytes place)
      (create_canvas-room win x y width height allocated buffer d some_window room some_memory
        some_pixels)
    ∙ ap
        (λ w.
          draw_widget ctx font font8 d' allocated win
            (fill_cells (cell_count w.width w.height) w.canvas_buffer 0 d.bytes) place)
        (sym widget)
    ∙ filled_lem ctx one fit px py on_x on_y font font8 d' allocated win shown 0 d.bytes
        (subst (λ w. pos 0 ≤ℤ w.width) (sym widget) proper)
    ∙ ap
        (λ w.
          if covers ((ui'.window_at win).x +ℤ w.x) ((ui'.window_at win).y +ℤ w.y) w.width w.height
            px py
          then 0
          else d.bytes place)
        widget
    ∙ ap (λ p. if covers (p.x +ℤ x) (p.y +ℤ y) width height px py then 0 else d.bytes place)
        (held_by win x y width height allocated buffer d)
