-- ===== src/Ui/Drawing/Tests.antt =====
-- Windows and canvases drawn on concrete inputs.
use waffle_os.Common.{
  ℕ, ◌%◌, ◌^◌, ◌≡◌, inr, refl, true, [], if◌then◌else◌, replicate, set, pos, negsuc, ◌+ℤ◌, arith,
  codes,
}
use waffle_os.Graphics.{GraphicsContext}
use waffle_os.Graphics.Bounds.{Outside, RowsFit}
use waffle_os.Ui.{ui_canvas, UiWidget, Window}
use waffle_os.Ui.Canvas.{Desktop, canvas_draw_pixel, create_canvas}
use waffle_os.Ui.Drawing.{draw_widget, draw_all_windows}
use waffle_os.Ui.Drawing.Copied.{pixel}
use waffle_os.Ui.Drawing.Inside.{draw_all_windows-inside}
use waffle_os.Ui.Drawing.Shown.{IsShown}
use waffle_os.Ui.Drawing.Pixels.{is_at, canvas_draw_pixel-shown}
use waffle_os.Ui.Drawing.Clearing.{covers}
use waffle_os.Ui.Drawing.Creating.{create_canvas-shown}

-- A screen of eight by four pixels.
abbrev screen : GraphicsContext
screen = record { buffer = 100; width = 8; height = 4; pitch = 8; bytes_per_pixel = 1 }

abbrev font : ℕ → ℕ → ℕ
font c row = 129

-- The window at 5 holds the canvas at 6, two by two pixels, partly off the screen.
abbrev window : Window
window = record {
  x = pos 6;
  y = pos 1;
  width = pos 4;
  height = pos 3;
  bg_color = 7;
  title = codes "a";
  is_active = true;
  has_title_bar = true;
  widgets = set (replicate 10 0) 0 6;
  widget_count = 1;
  canvas = 0;
}

abbrev widget : UiWidget
widget = record {
  type = ui_canvas;
  x = pos 1;
  y = pos 1;
  width = pos 2;
  height = pos 2;
  text = [];
  bg_color = 0;
  text_color = 0;
  text_margin_x = pos 0;
  text_margin_y = negsuc 1;
  on_click = 0;
  user_data = 0;
  canvas_buffer = 200;
}

abbrev desktop : Desktop
desktop = record {
  ui = record {
    table = record { slots = set (replicate 10 0) 0 5; window_count = 1 };
    window_at = λ p. window;
    widget_at = λ p. widget;
  };
  canvas_at = λ p. record { buffer = 0; x = pos 0; y = pos 0; width = pos 0; height = pos 0 };
  bytes = λ a. 9;
}

fits : RowsFit screen
fits = omega arith

after_end : Outside screen 132
after_end = inr (omega arith)

shown : IsShown screen desktop 6 5
shown = record {
  some_canvas = omega arith;
  some_window = omega arith;
  type = refl;
  some_buffer = omega arith;
  apart = inr (omega arith);
}

-- The cell (0, 1) stands at column 7 of row 3.
pixel_drawn :
    (let d = canvas_draw_pixel 6 (pos 0) (pos 1) 259 desktop in
      draw_widget screen font font d 6 5 d.bytes 131)
    ≡ 3
unfolding draw_widget canvas_draw_pixel
pixel_drawn = refl

pixel_kept :
    (let d = canvas_draw_pixel 6 (pos 0) (pos 1) 259 desktop in
      draw_widget screen font font d 6 5 d.bytes 130)
    ≡ 9
unfolding draw_widget canvas_draw_pixel
pixel_kept = refl

draw_all_windows-inside_example : (draw_all_windows screen font font desktop).bytes 132 ≡ 9
draw_all_windows-inside_example =
    draw_all_windows-inside screen font font desktop 132 refl fits after_end

canvas_draw_pixel-shown_example :
    draw_widget screen font font
      (canvas_draw_pixel 6 (pos 0) (pos 1) 259 desktop)
      6
      5
      (canvas_draw_pixel 6 (pos 0) (pos 1) 259 desktop).bytes
      (pixel screen 7 3)
    ≡ (if is_at desktop 6 5 0 1 7 3
        then 259 % 2 ^ 8
        else draw_widget screen font font desktop 6 5 desktop.bytes (pixel screen 7 3))
canvas_draw_pixel-shown_example =
    canvas_draw_pixel-shown screen font font desktop 6 5 0 1 259 7 3 refl fits shown (omega arith)
      (omega arith) (omega arith) (omega arith)

create_canvas-shown_example :
    (let (widget, d') = create_canvas 5 (pos 0) (pos 1) (pos 2) (pos 1) 8 300 desktop in
      draw_widget screen font font d' widget 5 d'.bytes (pixel screen 6 2))
    ≡ (if covers (window.x +ℤ pos 0) (window.y +ℤ pos 1) (pos 2) (pos 1) 6 2 then 0 else 9)
create_canvas-shown_example =
    create_canvas-shown screen font font desktop 5 (pos 0) (pos 1) (pos 2) (pos 1) 8 300 6 2 refl
      fits (omega arith) (omega arith) (omega arith) (omega arith) (inr (omega arith)) (omega arith)
      (omega arith) (omega arith)
