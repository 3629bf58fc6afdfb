-- ===== src/Ui/Drawing/Inside.antt =====
-- Where drawing the windows writes: never outside the buffer of the context.
use waffle_os.Common.{
  ℕ, zero, suc, ◌+◌, ◌≡◌, refl, sym, ap, ◌∙◌, Bool, true, false, List, ◌||◌, ◌==◌, if◌then◌else◌,
  get_or, ℤ, pos, pos_part, ◌+ℤ◌, ◌-ℤ◌,
}
use waffle_os.Memory.Bytes.{Mem8}
use waffle_os.Graphics.{GraphicsContext, ctx_put_pixel, draw_rect}
use waffle_os.Graphics.Bounds.{
  Outside, RowsFit, Spares, if-either, put_pixel-Spares, draw_chars-Spares, drawing-inside,
}
use waffle_os.Graphics.Rectangles.{draw_rect-ctx_draw_rect}
use waffle_os.Graphics.Shapes.{draw_string}
use waffle_os.Graphics.Styled.{draw_string_styled, draw_styled_chars-Spares}
use waffle_os.Ui.{ui_button, ui_label, ui_canvas, UiWidget, Window}
use waffle_os.Ui.Canvas.{Canvas, Desktop}
use waffle_os.Ui.Drawing.{
  white_16, blue_16, put_row, put_rows, draw_across, draw_down, draw_border, canvas_color,
  widget_color, draw_widget_at, draw_widget, draw_window_canvas, draw_widgets, draw_title,
  draw_window_content, draw_windows, draw_all_windows,
}

module _ (ctx : GraphicsContext) (one : ctx.bytes_per_pixel ≡ 1) (fit : RowsFit ctx) (a : ℕ)
    (outside : Outside ctx a) where
  pub put-Spares : (color : ℕ) → Spares a (λ x y. ctx_put_pixel ctx x y color)
  put-Spares color = put_pixel-Spares ctx color a fit outside

  pub rect-Spares :
      (x y width height : ℤ) (color : ℕ) (m : Mem8) → draw_rect ctx x y width height color m a ≡ m a
  rect-Spares x y width height color m =
      ap (λ f. f a) (sym (draw_rect-ctx_draw_rect ctx x y width height color m one))
      ∙ (drawing-inside ctx (λ _ _. 0) color a m fit outside).0 x y width height

  pub text-Spares :
      (font : ℕ → ℕ → ℕ) (color : ℕ) (x y : ℤ) (str : List ℕ) (m : Mem8)
      → draw_string (λ x y. ctx_put_pixel ctx x y color) font x y str m a ≡ m a
  unfolding draw_string
  text-Spares font color x y str m =
      draw_chars-Spares (λ x y. ctx_put_pixel ctx x y color) a (put-Spares color) font x x y str m

  across-Spares : (n : ℕ) (x top bottom : ℤ) (m : Mem8) → draw_across ctx n x top bottom m a ≡ m a
  unfolding draw_across
  across-Spares zero x top bottom m = refl
  across-Spares (suc n) x top bottom m =
      across-Spares n (x +ℤ pos 1) top bottom
        (ctx_put_pixel ctx x bottom white_16 (ctx_put_pixel ctx x top white_16 m))
      ∙ put-Spares white_16 x bottom (ctx_put_pixel ctx x top white_16 m)
      ∙ put-Spares white_16 x top m

  down-Spares : (n : ℕ) (y left right : ℤ) (m : Mem8) → draw_down ctx n y left right m a ≡ m a
  unfolding draw_down
  down-Spares zero y left right m = refl
  down-Spares (suc n) y left right m =
      down-Spares n (y +ℤ pos 1) left right
        (ctx_put_pixel ctx right y white_16 (ctx_put_pixel ctx left y white_16 m))
      ∙ put-Spares white_16 right y (ctx_put_pixel ctx left y white_16 m)
      ∙ put-Spares white_16 left y m

  border-Spares : (x y width height : ℤ) (m : Mem8) → draw_border ctx x y width height m a ≡ m a
  unfolding draw_border
  border-Spares x y width height m =
      down-Spares (pos_part height) y x (x +ℤ width -ℤ pos 1)
        (draw_across ctx (pos_part width) x y (y +ℤ height -ℤ pos 1) m)
      ∙ across-Spares (pos_part width) x y (y +ℤ height -ℤ pos 1) m

  module _ (color : ℕ → Mem8 → ℕ) where
    row-Spares : (n offset : ℕ) (x y : ℤ) (m : Mem8) → put_row ctx color n offset x y m a ≡ m a
    unfolding put_row
    row-Spares zero offset x y m = refl
    row-Spares (suc n) offset x y m =
        row-Spares n (offset + 1) (x +ℤ pos 1) y (ctx_put_pixel ctx x y (color offset m) m)
        ∙ put-Spares (color offset m) x y m

    rows-Spares :
        (n width offset : ℕ) (x y : ℤ) (m : Mem8) → put_rows ctx color n width offset x y m a ≡ m a
    unfolding put_rows
    rows-Spares zero width offset x y m = refl
    rows-Spares (suc n) width offset x y m =
        rows-Spares n width (offset + width) x (y +ℤ pos 1) (put_row ctx color width offset x y m)
        ∙ row-Spares width offset x y m

  pub unless-Spares :
      (b : Bool) (f : Mem8 → Mem8) (m : Mem8) → f m a ≡ m a → (if b then m else f m) a ≡ m a
  unless-Spares true f m e = refl
  unless-Spares false f m e = e

  module _ (font font8 : ℕ → ℕ → ℕ) where
    abbrev text_of_widget : UiWidget → ℤ → ℤ → Mem8 → Mem8
    text_of_widget w abs_x abs_y m =
        draw_string (λ x y. ctx_put_pixel ctx x y w.text_color) font (abs_x +ℤ w.text_margin_x)
          (abs_y +ℤ w.text_margin_y) w.text m

    widget_at-Spares :
        (w : UiWidget) (abs_x abs_y : ℤ) (m : Mem8)
        → draw_widget_at ctx font font8 w abs_x abs_y m a ≡ m a
    unfolding draw_widget_at
    widget_at-Spares w abs_x abs_y m =
        let button : Mem8 =
          draw_border ctx abs_x abs_y w.width w.height
            (draw_rect ctx abs_x abs_y w.width w.height w.bg_color m) in
        let canvas : Mem8 → Mem8 =
          put_rows ctx (widget_color ctx w.canvas_buffer) (pos_part w.height) (pos_part w.width) 0
            abs_x abs_y in
        elim w.type
          as (λ t.
            elim t as (λ _. Mem8) [
              | ui_button ↦ text_of_widget w abs_x abs_y button
              | ui_label ↦ text_of_widget w abs_x abs_y m
              | ui_canvas ↦ if w.canvas_buffer == 0 then m else canvas m
            ]
              a
            ≡ m a) [
              | ui_button ↦
                  text-Spares font w.text_color (abs_x +ℤ w.text_margin_x)
                    (abs_y +ℤ w.text_margin_y) w.text button
                  ∙ border-Spares abs_x abs_y w.width w.height
                      (draw_rect ctx abs_x abs_y w.width w.height w.bg_color m)
                  ∙ rect-Spares abs_x abs_y w.width w.height w.bg_color m
              | ui_label ↦
                  text-Spares font w.text_color (abs_x +ℤ w.text_margin_x)
                    (abs_y +ℤ w.text_margin_y) w.text m
              | ui_canvas ↦ unless-Spares (w.canvas_buffer == 0) canvas m (
                  rows-Spares (widget_color ctx w.canvas_buffer) (pos_part w.height)
                    (pos_part w.width) 0 abs_x abs_y m)
            ]

    abbrev at_widget : Desktop → ℕ → ℕ → Mem8 → Mem8
    at_widget d widget win m =
        let w : UiWidget = d.ui.widget_at widget in
        let parent : Window = d.ui.window_at win in
        draw_widget_at ctx font font8 w (parent.x +ℤ w.x) (parent.y +ℤ w.y) m

    widget-Spares :
        (d : Desktop) (widget win : ℕ) (m : Mem8)
        → draw_widget ctx font font8 d widget win m a ≡ m a
    unfolding draw_widget
    widget-Spares d widget win m =
        let w : UiWidget = d.ui.widget_at widget in
        let parent : Window = d.ui.window_at win in
        unless-Spares (widget == 0 || win == 0) (at_widget d widget win) m
          (widget_at-Spares w (parent.x +ℤ w.x) (parent.y +ℤ w.y) m)

    widgets-Spares :
        (n i : ℕ) (d : Desktop) (win : ℕ) (m : Mem8)
        → draw_widgets ctx font font8 n i d win m a ≡ m a
    unfolding draw_widgets
    widgets-Spares zero i d win m = refl
    widgets-Spares (suc n) i d win m =
        let widget : ℕ = get_or (d.ui.window_at win).widgets i 0 in
        widgets-Spares n (i + 1) d win
          (if widget == 0 then m else draw_widget ctx font font8 d widget win m)
        ∙ unless-Spares (widget == 0) (draw_widget ctx font font8 d widget win) m
            (widget-Spares d widget win m)

    abbrev at_canvas : Desktop → ℕ → Mem8 → Mem8
    at_canvas d win m =
        let w : Window = d.ui.window_at win in
        let c : Canvas = d.canvas_at w.canvas in
        put_rows ctx (canvas_color ctx c.buffer) (pos_part c.height) (pos_part c.width) 0
          (w.x +ℤ c.x) (w.y +ℤ c.y) m

    window_canvas-Spares :
        (d : Desktop) (win : ℕ) (m : Mem8) → draw_window_canvas ctx font font8 d win m a ≡ m a
    unfolding draw_window_canvas
    window_canvas-Spares d win m =
        let w : Window = d.ui.window_at win in
        let c : Canvas = d.canvas_at w.canvas in
        unless-Spares (win == 0 || w.canvas == 0) (at_canvas d win) m (
          rows-Spares (canvas_color ctx c.buffer) (pos_part c.height) (pos_part c.width) 0
            (w.x +ℤ c.x) (w.y +ℤ c.y) m)

    title-Spares : (w : Window) (m : Mem8) → draw_title ctx font font8 w m a ≡ m a
    unfolding draw_title draw_string_styled
    title-Spares w m =
        draw_styled_chars-Spares (λ x y. ctx_put_pixel ctx x y white_16) a (put-Spares white_16)
          font8 (w.x +ℤ pos 4) (w.x +ℤ pos 4) (w.y +ℤ pos 4) w.title
          (draw_rect ctx w.x w.y w.width (pos 16) blue_16 m)
        ∙ rect-Spares w.x w.y w.width (pos 16) blue_16 m

    content-Spares :
        (d : Desktop) (win : ℕ) (m : Mem8) → draw_window_content ctx font font8 d win m a ≡ m a
    unfolding draw_window_content
    content-Spares d win m =
        let w : Window = d.ui.window_at win in
        let filled : Mem8 = draw_rect ctx w.x w.y w.width w.height w.bg_color m in
        let framed : Mem8 = draw_border ctx w.x w.y w.width w.height filled in
        let titled : Mem8 =
          if w.has_title_bar then draw_title ctx font font8 w framed else framed in
        widgets-Spares w.widget_count 0 d win
          (if w.canvas == 0 then titled else draw_window_canvas ctx font font8 d win titled)
        ∙ unless-Spares (w.canvas == 0) (draw_window_canvas ctx font font8 d win) titled
            (window_canvas-Spares d win titled)
        ∙ if-either w.has_title_bar (draw_title ctx font font8 w framed) framed a
            (title-Spares w framed)
        ∙ border-Spares w.x w.y w.width w.height filled
        ∙ rect-Spares w.x w.y w.width w.height w.bg_color m

    windows-Spares :
        (n i : ℕ) (d : Desktop) (m : Mem8) → draw_windows ctx font font8 n i d m a ≡ m a
    unfolding draw_windows
    windows-Spares zero i d m = refl
    windows-Spares (suc n) i d m =
        let win : ℕ = get_or d.ui.table.slots i 0 in
        windows-Spares n (i + 1) d
          (if (d.ui.window_at win).is_active then draw_window_content ctx font font8 d win m else m)
        ∙ if-either (d.ui.window_at win).is_active (draw_window_content ctx font font8 d win m) m a
            (content-Spares d win m)

-- In a mode of one byte per pixel whose rows hold the pixels of the screen, drawing all windows
-- leaves every byte that lies outside the pixels of the drawing target as it was, whatever windows,
-- titles, widgets and canvases there are, wherever they lie and whatever their sizes and the fonts.
pub draw_all_windows-inside :
    (ctx : GraphicsContext) (font font8 : ℕ → ℕ → ℕ) (d : Desktop) (a : ℕ)
    → ctx.bytes_per_pixel ≡ 1
    → RowsFit ctx
    → Outside ctx a
    → (draw_all_windows ctx font font8 d).bytes a ≡ d.bytes a
unfolding draw_all_windows
draw_all_windows-inside ctx font font8 d a one fit outside =
    windows-Spares ctx one fit a outside font font8 d.ui.table.window_count 0 d d.bytes
