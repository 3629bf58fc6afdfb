-- ===== src/Ui/Canvas.antt =====
-- The canvases of widgets and of windows: `create_canvas`, `canvas_clear` and `canvas_draw_pixel` of
-- libs/ui/ui_widget.c, and `create_window_canvas` and `clear_window_canvas` of
-- libs/ui/window_manager.c. The pixels lie in the memory of bytes at the address that `malloc`
-- returned, which is an argument, like the one of the structure. What `free` does to the chain of
-- blocks when there is no memory for the pixels is left out. An int does not overflow, and the
-- number of bytes of a window's canvas is not negative.
pub mod Keeping
use waffle_os.Common.{
  ℕ, zero, suc, ◌+◌, ◌*◌, ◌/◌, ◌%◌, ◌^◌, Bool, true, false, not, ◌||◌, [], ◌==◌, leb, if◌then◌else◌,
  ℤ, pos, pos_part, neg_part, ltb_ℤ, leb_ℤ,
}
use waffle_os.Memory.Bytes.{Mem8, write_word, memset}
use waffle_os.Ui.{
  UiWidgetType, ui_button, ui_label, ui_canvas, UiWidget, Ui, set_window, set_widget, add_widget,
  max_widgets_per_window, put_at,
}

-- `buffer` is an address.
pub record Canvas : Type 0 where
  pub buffer : ℕ
  pub x : ℤ
  pub y : ℤ
  pub width : ℤ
  pub height : ℤ

-- The windows and widgets, the canvases of windows by their address, and the bytes.
pub record Desktop : Type 0 where
  pub ui : Ui
  pub canvas_at : ℕ → Canvas
  pub bytes : Mem8

-- `width * height`, which two negative numbers make positive.
abbrev pub cell_count : ℤ → ℤ → ℕ
cell_count width height = pos_part width * pos_part height + neg_part width * neg_part height

-- A uint32_t in memory.
abbrev pub read_word : ℕ → Mem8 → ℕ
read_word a m = m a + m (a + 1) * 2 ^ 8 + m (a + 2) * 2 ^ 16 + m (a + 3) * 2 ^ 24

unfoldable pub store_word : ℕ → ℕ → Mem8 → Mem8
unfolding write_word
store_word a v m =
    write_word m a (v % 2 ^ 8) (v / 2 ^ 8 % 2 ^ 8) (v / 2 ^ 16 % 2 ^ 8) (v / 2 ^ 24 % 2 ^ 8)

-- The loop over the pixels, with the rounds that are left and the address of the next one.
unfoldable pub fill_cells : ℕ → ℕ → ℕ → Mem8 → Mem8
unfolding store_word
fill_cells zero a color m = m
fill_cells (suc n) a color m = fill_cells n (a + 4) color (store_word a color m)

abbrev pub is_canvas : UiWidgetType → Bool
is_canvas ui_button = false
is_canvas ui_label = false
is_canvas ui_canvas = true

-- The fields of the new widget. The margins are left as its memory held them.
abbrev pub new_canvas : ℤ → ℤ → ℤ → ℤ → ℕ → UiWidget → UiWidget
new_canvas x y width height buffer held = record {
  type = ui_canvas;
  x = x;
  y = y;
  width = width;
  height = height;
  text = [];
  bg_color = 0;
  text_color = 0;
  text_margin_x = held.text_margin_x;
  text_margin_y = held.text_margin_y;
  on_click = 0;
  user_data = 0;
  canvas_buffer = buffer;
}

unfoldable pub create_canvas : ℕ → ℤ → ℤ → ℤ → ℤ → ℕ → ℕ → Desktop → ℕ × Desktop
unfolding fill_cells add_widget
create_canvas win x y width height allocated buffer d =
    let fields : UiWidget = new_canvas x y width height buffer (d.ui.widget_at allocated) in
    if win == 0 || leb max_widgets_per_window (d.ui.window_at win).widget_count
    then (0, d)
    else if allocated == 0
    then (0, d)
    else if buffer == 0
    then (0, record d { ui = set_widget d.ui allocated fields })
    else (
      allocated,
      record d {
        ui = add_widget win allocated (set_widget d.ui allocated fields);
        bytes = fill_cells (cell_count width height) buffer 0 d.bytes;
      },
    )

-- `!canvas || canvas->type != UI_CANVAS || !canvas->canvas_buffer`
abbrev pub no_canvas : ℕ → UiWidget → Bool
no_canvas canvas w = canvas == 0 || (not (is_canvas w.type) || w.canvas_buffer == 0)

unfoldable pub canvas_clear : ℕ → ℕ → Desktop → Desktop
unfolding fill_cells
canvas_clear canvas color d =
    let w : UiWidget = d.ui.widget_at canvas in
    if no_canvas canvas w
    then d
    else record d { bytes = fill_cells (cell_count w.width w.height) w.canvas_buffer color d.bytes }

abbrev pub outside_canvas : UiWidget → ℤ → ℤ → Bool
outside_canvas w x y = ltb_ℤ x (pos 0) || (ltb_ℤ y (pos 0) || (leb_ℤ w.width x || leb_ℤ w.height y))

-- Within the canvas no number is negative.
unfoldable pub canvas_draw_pixel : ℕ → ℤ → ℤ → ℕ → Desktop → Desktop
unfolding store_word
canvas_draw_pixel canvas x y color d =
    let w : UiWidget = d.ui.widget_at canvas in
    let cell : ℕ = pos_part y * pos_part w.width + pos_part x in
    if no_canvas canvas w
    then d
    else if outside_canvas w x y
    then d
    else record d { bytes = store_word (w.canvas_buffer + 4 * cell) color d.bytes }

-- For the mode with this number of bytes per pixel.
unfoldable pub create_window_canvas : ℕ → ℕ → ℤ → ℤ → ℤ → ℤ → ℕ → ℕ → Desktop → ℕ × Desktop
create_window_canvas bytes_per_pixel win x y width height allocated buffer d =
    let c : Canvas = record { buffer = buffer; x = x; y = y; width = width; height = height } in
    if win == 0
    then (0, d)
    else if allocated == 0
    then (0, d)
    else if buffer == 0
    then (0, record d { canvas_at = put_at d.canvas_at allocated c })
    else (
      allocated,
      record {
        ui = set_window d.ui win (record (d.ui.window_at win) { canvas = allocated });
        canvas_at = put_at d.canvas_at allocated c;
        bytes = memset buffer 0 (cell_count width height * bytes_per_pixel) d.bytes;
      },
    )

unfoldable pub clear_window_canvas : ℕ → ℕ → ℕ → Desktop → Desktop
clear_window_canvas bytes_per_pixel win color d =
    let c : Canvas = d.canvas_at (d.ui.window_at win).canvas in
    if win == 0 || (d.ui.window_at win).canvas == 0
    then d
    else if bytes_per_pixel == 1
    then record d { bytes = memset c.buffer (color % 2 ^ 8) (cell_count c.width c.height) d.bytes }
    else d
