-- ===== src/Ui/Frame.antt =====
-- A frame of the display: `draw_gui_to_buffer`, `flip_buffer` and `render_gui` of libs/gui.c, with
-- `draw_icon` of libs/icons.c and `draw_cursor` of libs/cursor.c. The context is that of the back
-- buffer, which `init_gui` has allocated (where it has not, the source draws to the frame buffer), in
-- the mode of one byte per pixel. The bitmaps of the fonts and of the cursor are
-- arguments, and so is what a callback does and what the visualisers and the terminal, which draw on
-- canvases, do between drawing and flipping.
pub mod Flipping
mod Tests
use waffle_os.Common.{
  ℕ, zero, suc, ◌+◌, ◌*◌, List, Option, none, some, ◌==◌, if◌then◌else◌, ℤ, pos, ◌+ℤ◌, ◌-ℤ◌, codes,
}
use waffle_os.Memory.Bytes.{Mem8, memcpy}
use waffle_os.Graphics.{GraphicsContext, ctx_put_pixel, draw_rect}
use waffle_os.Graphics.Shapes.{draw_string}
use waffle_os.Mouse.{MouseState}
use waffle_os.Ui.Events.{Drag, update_drag, update_mouse_click}
use waffle_os.Ui.Canvas.{Desktop}
use waffle_os.Ui.Drawing.{white_16, blue_16, draw_all_windows}

-- The static variables of events.c and gui.c beside the windows.
pub record Gui : Type 0 where
  pub drag : Drag
  pub previous_buttons : ℕ
  pub desktop : Desktop

-- `switch (icon[row][col])`: the colour of a character, where it has one.
unfoldable pub icon_color : ℕ → Option ℕ
icon_color c =
    if c == 46
    then some white_16
    else if c == 88
    then some 0
    else if c == 82
    then some 4
    else if c == 89
    then some 14
    else if c == 66
    then some blue_16
    else if c == 71
    then some 7
    else none

module _ (ctx : GraphicsContext) (icon : ℕ → ℕ → ℕ) where
  unfoldable pub draw_dot : Option ℕ → ℤ → ℤ → Mem8 → Mem8
  unfolding ctx_put_pixel
  draw_dot none x y m = m
  draw_dot (some color) x y m = ctx_put_pixel ctx x y color m

  -- The loop over `col`, with the rounds that are left.
  unfoldable pub draw_icon_row : ℕ → ℕ → ℕ → ℤ → ℤ → Mem8 → Mem8
  unfolding draw_dot icon_color ◌+ℤ◌
  draw_icon_row zero row col x y m = m
  draw_icon_row (suc n) row col x y m =
      draw_icon_row n row (col + 1) (x +ℤ pos 1) y (draw_dot (icon_color (icon row col)) x y m)

  unfoldable pub draw_icon_rows : ℕ → ℕ → ℤ → ℤ → Mem8 → Mem8
  unfolding draw_icon_row ◌+ℤ◌
  draw_icon_rows zero row x y m = m
  draw_icon_rows (suc n) row x y m =
      draw_icon_rows n (row + 1) x (y +ℤ pos 1) (draw_icon_row 8 row 0 x y m)

  unfoldable pub draw_icon : ℤ → ℤ → Mem8 → Mem8
  unfolding draw_icon_rows
  draw_icon x y m = draw_icon_rows 8 0 x y m

-- A callback is called with its widget and its window.
unfoldable pub called : (ℕ × ℕ → Desktop → Desktop) → Option (ℕ × ℕ) → Desktop → Desktop
called call none d = d
called call (some c) d = call c d

module _ (ctx : GraphicsContext) (font font8 icon : ℕ → ℕ → ℕ) (call : ℕ × ℕ → Desktop → Desktop)
    (mouse : MouseState) where
  -- The background, the bar and its text.
  unfoldable pub draw_background : Mem8 → Mem8
  unfolding draw_rect draw_string ◌-ℤ◌
  draw_background m =
      draw_string (λ x y. ctx_put_pixel ctx x y 14) font (pos 3) (pos 3)
        (codes "Welcome to WaffleOS!")
        (draw_rect ctx (pos 0) (pos 0) (pos ctx.width -ℤ pos 1) (pos 20) blue_16
          (draw_rect ctx (pos 0) (pos 0) (pos ctx.width -ℤ pos 1) (pos ctx.height -ℤ pos 1) 9 m))

  unfoldable pub draw_gui_to_buffer : Gui → Gui
  unfolding draw_background update_drag update_mouse_click called draw_all_windows draw_icon
  draw_gui_to_buffer g =
      let (drag', ui') = update_drag mouse (g.drag, g.desktop.ui) in
      let (buttons, click) = update_mouse_click mouse g.previous_buttons ui' in
      let clicked : Desktop =
        called call click
          (record g.desktop { ui = ui'; bytes = draw_background g.desktop.bytes }) in
      let drawn : Desktop = draw_all_windows ctx font font8 clicked in
      record {
        drag = drag';
        previous_buttons = buttons;
        desktop = record drawn { bytes = draw_icon ctx icon mouse.x mouse.y drawn.bytes };
      }

  -- The copy of the back buffer to the frame buffer.
  unfoldable pub flip_buffer : ℕ → Mem8 → Mem8
  flip_buffer framebuffer m =
      memcpy framebuffer ctx.buffer (ctx.width * ctx.height * ctx.bytes_per_pixel) m

  -- `updates` is what the visualisers and the terminal do.
  unfoldable pub render_gui : ℕ → (Desktop → Desktop) → Gui → Gui
  unfolding draw_gui_to_buffer flip_buffer
  render_gui framebuffer updates g =
      let g' : Gui = draw_gui_to_buffer g in
      let d : Desktop = updates g'.desktop in
      record g' { desktop = record d { bytes = flip_buffer framebuffer d.bytes } }
