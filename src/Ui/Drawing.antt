-- ===== src/Ui/Drawing.antt =====
-- Drawing the windows: `draw_widget` of libs/ui/ui_widget.c, and `draw_window_canvas`,
-- `draw_window_content` and `draw_all_windows` of libs/ui/window_manager.c, onto the drawing target
-- of the context. Rectangles are filled in the mode of one byte per pixel. The bitmaps of the two
-- fonts are arguments.
pub mod Inside
pub mod Copied
pub mod Shown
pub mod Pixels
pub mod Clearing
pub mod Creating
mod Tests
use waffle_os.Common.{
  ℕ, zero, suc, ◌+◌, ◌*◌, ◌%◌, ◌^◌, true, false, ◌||◌, ◌==◌, if◌then◌else◌, get_or, ℤ, pos,
  pos_part, ◌+ℤ◌, ◌-ℤ◌,
}
use waffle_os.Memory.Bytes.{Mem8}
use waffle_os.Graphics.{GraphicsContext, ctx_put_pixel, draw_rect}
use waffle_os.Graphics.Shapes.{draw_string}
use waffle_os.Graphics.Styled.{draw_string_styled}
use waffle_os.Ui.{ui_button, ui_label, ui_canvas, UiWidget, Window}
use waffle_os.Ui.Canvas.{Canvas, Desktop, read_word}

-- `WHITE_16` and `BLUE_16`
abbrev pub white_16 : ℕ
white_16 = 15

abbrev pub blue_16 : ℕ
blue_16 = 1

-- The loops that copy a canvas: `color` is the pixel at an offset, read from the memory when it is
-- put. The first number is that of the rounds left.
module _ (ctx : GraphicsContext) (color : ℕ → Mem8 → ℕ) where
  unfoldable pub put_row : ℕ → ℕ → ℤ → ℤ → Mem8 → Mem8
  unfolding ctx_put_pixel ◌+ℤ◌
  put_row zero offset x y m = m
  put_row (suc n) offset x y m =
      put_row n (offset + 1) (x +ℤ pos 1) y (ctx_put_pixel ctx x y (color offset m) m)

  unfoldable pub put_rows : ℕ → ℕ → ℕ → ℤ → ℤ → Mem8 → Mem8
  unfolding put_row
  put_rows zero width offset x y m = m
  put_rows (suc n) width offset x y m =
      put_rows n width (offset + width) x (y +ℤ pos 1) (put_row width offset x y m)

-- The border of a button and of a window: two loops, over the columns and over the rows.
module _ (ctx : GraphicsContext) where
  unfoldable pub draw_across : ℕ → ℤ → ℤ → ℤ → Mem8 → Mem8
  unfolding ctx_put_pixel ◌+ℤ◌
  draw_across zero x top bottom m = m
  draw_across (suc n) x top bottom m =
      draw_across n (x +ℤ pos 1) top bottom
        (ctx_put_pixel ctx x bottom white_16 (ctx_put_pixel ctx x top white_16 m))

  unfoldable pub draw_down : ℕ → ℤ → ℤ → ℤ → Mem8 → Mem8
  unfolding ctx_put_pixel ◌+ℤ◌
  draw_down zero y left right m = m
  draw_down (suc n) y left right m =
      draw_down n (y +ℤ pos 1) left right
        (ctx_put_pixel ctx right y white_16 (ctx_put_pixel ctx left y white_16 m))

  unfoldable pub draw_border : ℤ → ℤ → ℤ → ℤ → Mem8 → Mem8
  unfolding draw_across draw_down ◌+ℤ◌ ◌-ℤ◌
  draw_border x y width height m =
      draw_down (pos_part height) y x (x +ℤ width -ℤ pos 1)
        (draw_across (pos_part width) x y (y +ℤ height -ℤ pos 1) m)

  -- The pixel at an offset of the buffer of a window's canvas.
  unfoldable pub canvas_color : ℕ → ℕ → Mem8 → ℕ
  canvas_color buffer offset m =
      if ctx.bytes_per_pixel == 1
      then m (buffer + offset)
      else if ctx.bytes_per_pixel == 2
      then m (buffer + 2 * offset) + m (buffer + 2 * offset + 1) * 2 ^ 8
      else if ctx.bytes_per_pixel == 4
      then read_word (buffer + 4 * offset) m
      else 0

  abbrev pub widget_color : ℕ → ℕ → Mem8 → ℕ
  widget_color canvas_buffer offset m = read_word (canvas_buffer + 4 * offset) m

  module _ (font font8 : ℕ → ℕ → ℕ) where
    -- By the type of the widget, whose corner is at the coordinates.
    unfoldable pub draw_widget_at : UiWidget → ℤ → ℤ → Mem8 → Mem8
    unfolding put_rows draw_border draw_rect draw_string ◌+ℤ◌
    draw_widget_at w abs_x abs_y m =
        let text : Mem8 → Mem8 =
          draw_string (λ x y. ctx_put_pixel ctx x y w.text_color) font (abs_x +ℤ w.text_margin_x)
            (abs_y +ℤ w.text_margin_y) w.text in
        elim w.type [
          | ui_button ↦ text (
              draw_border abs_x abs_y w.width w.height
                (draw_rect ctx abs_x abs_y w.width w.height w.bg_color m))
          | ui_label ↦ text m
          | ui_canvas ↦
              if w.canvas_buffer == 0
              then m
              else put_rows ctx (widget_color w.canvas_buffer) (pos_part w.height)
                  (pos_part w.width) 0 abs_x abs_y m
        ]

    unfoldable pub draw_widget : Desktop → ℕ → ℕ → Mem8 → Mem8
    unfolding draw_widget_at ◌+ℤ◌
    draw_widget d widget win m =
        let w : UiWidget = d.ui.widget_at widget in
        let parent : Window = d.ui.window_at win in
        if widget == 0 || win == 0
        then m
        else draw_widget_at w (parent.x +ℤ w.x) (parent.y +ℤ w.y) m

    unfoldable pub draw_window_canvas : Desktop → ℕ → Mem8 → Mem8
    unfolding put_rows canvas_color ◌+ℤ◌
    draw_window_canvas d win m =
        let w : Window = d.ui.window_at win in
        let c : Canvas = d.canvas_at w.canvas in
        if win == 0 || w.canvas == 0
        then m
        else put_rows ctx (canvas_color c.buffer) (pos_part c.height) (pos_part c.width) 0
            (w.x +ℤ c.x) (w.y +ℤ c.y) m

    -- `if (win->widgets[i]) draw_widget(win->widgets[i], win);`
    unfoldable pub draw_widgets : ℕ → ℕ → Desktop → ℕ → Mem8 → Mem8
    unfolding draw_widget
    draw_widgets zero i d win m = m
    draw_widgets (suc rounds) i d win m =
        let widget : ℕ = get_or (d.ui.window_at win).widgets i 0 in
        draw_widgets rounds (i + 1) d win (if widget == 0 then m else draw_widget d widget win m)

    unfoldable pub draw_title : Window → Mem8 → Mem8
    unfolding draw_rect draw_string_styled ◌+ℤ◌
    draw_title w m =
        draw_string_styled (λ x y. ctx_put_pixel ctx x y white_16) font8 (w.x +ℤ pos 4)
          (w.y +ℤ pos 4) w.title (draw_rect ctx w.x w.y w.width (pos 16) blue_16 m)

    unfoldable pub draw_window_content : Desktop → ℕ → Mem8 → Mem8
    unfolding draw_title draw_border draw_window_canvas draw_widgets draw_rect
    draw_window_content d win m =
        let w : Window = d.ui.window_at win in
        let framed : Mem8 =
          draw_border w.x w.y w.width w.height
            (draw_rect ctx w.x w.y w.width w.height w.bg_color m) in
        let titled : Mem8 = if w.has_title_bar then draw_title w framed else framed in
        draw_widgets w.widget_count 0 d win
          (if w.canvas == 0 then titled else draw_window_canvas d win titled)

    -- The loop over the table, from the window at the back on.
    unfoldable pub draw_windows : ℕ → ℕ → Desktop → Mem8 → Mem8
    unfolding draw_window_content
    draw_windows zero i d m = m
    draw_windows (suc rounds) i d m =
        let win : ℕ = get_or d.ui.table.slots i 0 in
        draw_windows rounds (i + 1) d
          (if (d.ui.window_at win).is_active then draw_window_content d win m else m)

    unfoldable pub draw_all_windows : Desktop → Desktop
    unfolding draw_windows
    draw_all_windows d = record d { bytes = draw_windows d.ui.table.window_count 0 d d.bytes }
