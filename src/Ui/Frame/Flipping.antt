-- ===== src/Ui/Frame/Flipping.antt =====
-- Double buffering: the frame buffer changes only when `render_gui` of libs/gui.c flips.
use waffle_os.Common.{
  ℕ, zero, suc, ◌+◌, ◌-◌, ◌*◌, ◌≤◌, ◌<◌, ◌≡◌, ◌⊎◌, refl, ap, ◌∙◌, Option, none, some, true, ◌&&◌,
  leb, ltb, if◌then◌else◌, ℤ, pos, ◌+ℤ◌, ◌-ℤ◌, codes, arith,
}
use waffle_os.Memory.Bytes.{Mem8}
use waffle_os.Memory.Bytes.Copy.{moved, memcpy-moved}
use waffle_os.Graphics.{GraphicsContext, draw_rect}
use waffle_os.Graphics.Bounds.{Outside, RowsFit}
use waffle_os.Mouse.{MouseState}
use waffle_os.Ui.Events.{update_drag, update_mouse_click}
use waffle_os.Ui.Canvas.{Desktop}
use waffle_os.Ui.Drawing.{blue_16, draw_all_windows}
use waffle_os.Ui.Drawing.Inside.{put-Spares, rect-Spares, text-Spares, draw_all_windows-inside}
use waffle_os.Ui.Frame.{
  Gui, icon_color, draw_dot, draw_icon_row, draw_icon_rows, draw_icon, called, draw_background,
  draw_gui_to_buffer, flip_buffer, render_gui,
}

module _ (ctx : GraphicsContext) (one : ctx.bytes_per_pixel ≡ 1) (fit : RowsFit ctx) (a : ℕ)
    (outside : Outside ctx a) where
  module _ (icon : ℕ → ℕ → ℕ) where
    dot_lem : (color : Option ℕ) (x y : ℤ) (m : Mem8) → draw_dot ctx icon color x y m a ≡ m a
    unfolding draw_dot
    dot_lem none x y m = refl
    dot_lem (some color) x y m = put-Spares ctx one fit a outside color x y m

    icon_row_lem :
        (n row col : ℕ) (x y : ℤ) (m : Mem8) → draw_icon_row ctx icon n row col x y m a ≡ m a
    unfolding draw_icon_row
    icon_row_lem zero row col x y m = refl
    icon_row_lem (suc n) row col x y m =
        icon_row_lem n row (col + 1) (x +ℤ pos 1) y
          (draw_dot ctx icon (icon_color (icon row col)) x y m)
        ∙ dot_lem (icon_color (icon row col)) x y m

    icon_rows_lem : (n row : ℕ) (x y : ℤ) (m : Mem8) → draw_icon_rows ctx icon n row x y m a ≡ m a
    unfolding draw_icon_rows
    icon_rows_lem zero row x y m = refl
    icon_rows_lem (suc n) row x y m =
        icon_rows_lem n (row + 1) x (y +ℤ pos 1) (draw_icon_row ctx icon 8 row 0 x y m)
        ∙ icon_row_lem 8 row 0 x y m

  module _ (font font8 icon : ℕ → ℕ → ℕ) (call : ℕ × ℕ → Desktop → Desktop)
      (mouse : MouseState) where
    background_lem : (m : Mem8) → draw_background ctx font font8 icon call mouse m a ≡ m a
    unfolding draw_background
    background_lem m =
        let wide : ℤ = pos ctx.width -ℤ pos 1 in
        let tall : ℤ = pos ctx.height -ℤ pos 1 in
        let filled : Mem8 = draw_rect ctx (pos 0) (pos 0) wide tall 9 m in
        text-Spares ctx one fit a outside font 14 (pos 3) (pos 3) (codes "Welcome to WaffleOS!")
          (draw_rect ctx (pos 0) (pos 0) wide (pos 20) blue_16 filled)
        ∙ rect-Spares ctx one fit a outside (pos 0) (pos 0) wide (pos 20) blue_16 filled
        ∙ rect-Spares ctx one fit a outside (pos 0) (pos 0) wide tall 9 m

    called_lem :
        (click : Option (ℕ × ℕ)) (d : Desktop)
        → ((c : ℕ × ℕ) (d : Desktop) → (call c d).bytes a ≡ d.bytes a)
        → (called call click d).bytes a ≡ d.bytes a
    unfolding called
    called_lem none d spares = refl
    called_lem (some c) d spares = spares c d

    drawn_lem :
        (g : Gui)
        → ((c : ℕ × ℕ) (d : Desktop) → (call c d).bytes a ≡ d.bytes a)
        → (draw_gui_to_buffer ctx font font8 icon call mouse g).desktop.bytes a ≡ g.desktop.bytes a
    unfolding draw_gui_to_buffer draw_icon
    drawn_lem g spares =
        let (drag', ui') = update_drag mouse (g.drag, g.desktop.ui) in
        let (buttons, click) = update_mouse_click mouse g.previous_buttons ui' in
        let m : Mem8 = draw_background ctx font font8 icon call mouse g.desktop.bytes in
        let before : Desktop = record g.desktop { ui = ui'; bytes = m } in
        let clicked : Desktop = called call click before in
        icon_rows_lem icon 8 0 mouse.x mouse.y (draw_all_windows ctx font font8 clicked).bytes
        ∙ draw_all_windows-inside ctx font font8 clicked a one fit outside
        ∙ called_lem click before spares
        ∙ background_lem g.desktop.bytes

moved_at : (dst src n k : ℕ) (m : Mem8) → k < n → moved dst src n m (dst + k) ≡ m (src + k)
moved_at dst src n k m below =
    let within : (leb dst (dst + k) && ltb (dst + k) (dst + n)) ≡ true = ground arith in
    let place : dst + k - dst + src ≡ src + k = omega arith in
    ap (λ b. if b then m (dst + k - dst + src) else m (dst + k)) within ∙ ap m place

-- In a mode of one byte per pixel whose rows hold the pixels of the screen, let the frame buffer lie
-- apart from the back buffer, and let no callback write to it. Then drawing a frame leaves every byte
-- of the frame buffer as it was, whatever the mouse does, and rendering the frame makes each of them
-- the byte of the back buffer in the same place, as drawing and the updates after it have left it.
pub render_gui-flipped :
    (ctx : GraphicsContext) (font font8 icon : ℕ → ℕ → ℕ) (call : ℕ × ℕ → Desktop → Desktop)
    (mouse : MouseState) (framebuffer : ℕ) (updates : Desktop → Desktop) (g : Gui) (k : ℕ)
    → ctx.bytes_per_pixel ≡ 1
    → RowsFit ctx
    → (framebuffer + ctx.width * ctx.height * ctx.bytes_per_pixel ≤ ctx.buffer)
      ⊎ (ctx.buffer + ctx.height * ctx.pitch ≤ framebuffer)
    → ((c : ℕ × ℕ) (d : Desktop) → (call c d).bytes (framebuffer + k) ≡ d.bytes (framebuffer + k))
    → k < ctx.width * ctx.height * ctx.bytes_per_pixel
    → ((draw_gui_to_buffer ctx font font8 icon call mouse g).desktop.bytes (framebuffer + k)
        ≡ g.desktop.bytes (framebuffer + k))
      × ((render_gui ctx font font8 icon call mouse framebuffer updates g).desktop.bytes
            (framebuffer + k)
          ≡ (updates (draw_gui_to_buffer ctx font font8 icon call mouse g).desktop).bytes
              (ctx.buffer + k))
unfolding render_gui flip_buffer
render_gui-flipped ctx font font8 icon call mouse framebuffer updates g k one fit apart spares
      below =
    let size : ℕ = ctx.width * ctx.height * ctx.bytes_per_pixel in
    let outside : Outside ctx (framebuffer + k) = grind arith in
    let m : Mem8 = (updates (draw_gui_to_buffer ctx font font8 icon call mouse g).desktop).bytes in
    (
      drawn_lem ctx one fit (framebuffer + k) outside font font8 icon call mouse g spares,
      ap (λ f. f (framebuffer + k)) (memcpy-moved framebuffer ctx.buffer size m)
          ∙ moved_at framebuffer ctx.buffer size k m below,
    )
