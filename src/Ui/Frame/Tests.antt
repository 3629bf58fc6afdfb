-- ===== src/Ui/Frame/Tests.antt =====
-- A frame on a small screen.
use waffle_os.Common.{ℕ, ◌+◌, ◌≡◌, inl, refl, false, [], replicate, pos, arith}
use waffle_os.Graphics.{GraphicsContext}
use waffle_os.Graphics.Bounds.{RowsFit}
use waffle_os.Mouse.{MouseState}
use waffle_os.Ui.{ui_label}
use waffle_os.Ui.Canvas.{Desktop}
use waffle_os.Ui.Frame.{Gui, draw_gui_to_buffer, render_gui}
use waffle_os.Ui.Frame.Flipping.{render_gui-flipped}

-- Eight by four pixels; the frame buffer is at 20.
abbrev back : GraphicsContext
back = record { buffer = 100; width = 8; height = 4; pitch = 8; bytes_per_pixel = 1 }

abbrev blank : ℕ → ℕ → ℕ
blank c row = 0

-- A cursor that is black all over.
abbrev icon : ℕ → ℕ → ℕ
icon row col = 88

abbrev desktop : Desktop
desktop = record {
  ui = record {
    table = record { slots = replicate 10 0; window_count = 0 };
    window_at = λ p. record {
      x = pos 0;
      y = pos 0;
      width = pos 0;
      height = pos 0;
      bg_color = 0;
      title = [];
      is_active = false;
      has_title_bar = false;
      widgets = [];
      widget_count = 0;
      canvas = 0;
    };
    widget_at = λ p. record {
      type = ui_label;
      x = pos 0;
      y = pos 0;
      width = pos 0;
      height = pos 0;
      text = [];
      bg_color = 0;
      text_color = 0;
      text_margin_x = pos 0;
      text_margin_y = pos 0;
      on_click = 0;
      user_data = 0;
      canvas_buffer = 0;
    };
  };
  canvas_at = λ p. record { buffer = 0; x = pos 0; y = pos 0; width = pos 0; height = pos 0 };
  bytes = λ a. 77;
}

abbrev gui : Gui
gui = record {
  drag = record { dragged_window = 0; drag_offset_x = pos 0; drag_offset_y = pos 0 };
  previous_buttons = 0;
  desktop = desktop;
}

abbrev mouse : MouseState
mouse = record { x = pos 2; y = pos 1; buttons = 0 }

cursor_drawn : (draw_gui_to_buffer back blank blank icon (λ c d. d) mouse gui).desktop.bytes 110 ≡ 0
unfolding draw_gui_to_buffer
cursor_drawn = refl

bar_drawn : (draw_gui_to_buffer back blank blank icon (λ c d. d) mouse gui).desktop.bytes 109 ≡ 1
unfolding draw_gui_to_buffer
bar_drawn = refl

fits : RowsFit back
fits = omega arith

render_gui-flipped_example :
    ((draw_gui_to_buffer back blank blank icon (λ c d. d) mouse gui).desktop.bytes (20 + 10) ≡ 77)
    × ((render_gui back blank blank icon (λ c d. d) mouse 20 (λ d. d) gui).desktop.bytes (20 + 10)
        ≡ (draw_gui_to_buffer back blank blank icon (λ c d. d) mouse gui).desktop.bytes (100 + 10))
render_gui-flipped_example =
    render_gui-flipped back blank blank icon (λ c d. d) mouse 20 (λ d. d) gui 10 refl fits
      (inl (omega arith)) (λ c d. refl) (omega arith)
