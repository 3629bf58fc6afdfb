-- ===== src/Ui.antt =====
-- Windows with their widgets, and what the mouse does to them: `create_window`, `move_window` and
-- `resize_window` of source/kernel/libs/ui/window_manager.c over the table of Windows, the routines
-- of libs/ui/ui_widget.c that make widgets, libs/ui/events.c and `update_mouse_click` of
-- libs/gui.c. An int is an integer; a pointer is a number, and 0 is NULL. The structures are kept in
-- a store by their address; what `malloc` returns is an argument. A callback is its address.
pub mod Widgets
pub mod Events
pub mod Clicks
pub mod Steps
pub mod Opening
pub mod Reachable
pub mod Front
pub mod Button
pub mod Closing
pub mod Dragging
pub mod Canvas
pub mod Drawing
pub mod Frame
mod Tests
use waffle_os.Common.{
  ℕ, zero, suc, ◌+◌, ◌-◌, ◌%◌, Bool, true, false, not, ◌&&◌, ◌||◌, List, [], ◌∷◌, Option, none,
  some, ◌==◌, leb, if◌then◌else◌, set, get_or, take, replicate, ℤ, pos, negsuc, pos_part, neg_part,
  ltb_ℤ, leb_ℤ, eqb_ℤ, ◌+ℤ◌, ◌-ℤ◌, codes,
}
use waffle_os.Strings.{strcmp}
use waffle_os.Windows.{Windows, add_window}

pub data UiWidgetType : Type 0 where
  ui_button : UiWidgetType
  ui_label : UiWidgetType
  ui_canvas : UiWidgetType

-- `text` is the characters before the NUL.
pub record UiWidget : Type 0 where
  pub type : UiWidgetType
  pub x : ℤ
  pub y : ℤ
  pub width : ℤ
  pub height : ℤ
  pub text : List ℕ
  pub bg_color : ℕ
  pub text_color : ℕ
  pub text_margin_x : ℤ
  pub text_margin_y : ℤ
  pub on_click : ℕ
  pub user_data : ℕ
  pub canvas_buffer : ℕ

pub record Window : Type 0 where
  pub x : ℤ
  pub y : ℤ
  pub width : ℤ
  pub height : ℤ
  pub bg_color : ℕ
  pub title : List ℕ
  pub is_active : Bool
  pub has_title_bar : Bool
  pub widgets : List ℕ
  pub widget_count : ℕ
  pub canvas : ℕ

pub record Ui : Type 0 where
  pub table : Windows
  pub window_at : ℕ → Window
  pub widget_at : ℕ → UiWidget

abbrev pub max_widgets_per_window : ℕ
max_widgets_per_window = 10

abbrev pub put_at {ℓ} : {A : Type ℓ} → (ℕ → A) → ℕ → A → ℕ → A
put_at store p v q = if q == p then v else store q

abbrev pub set_window : Ui → ℕ → Window → Ui
set_window ui win w = record ui { window_at = put_at ui.window_at win w }

abbrev pub set_widget : Ui → ℕ → UiWidget → Ui
set_widget ui widget w = record ui { widget_at = put_at ui.widget_at widget w }

-- `win->widgets[win->widget_count++] = widget;`
unfoldable pub add_widget : ℕ → ℕ → Ui → Ui
add_widget win widget ui =
    let w : Window = ui.window_at win in
    set_window ui win (record w {
      widgets = set w.widgets w.widget_count widget;
      widget_count = w.widget_count + 1;
    })

-- The guards and the allocation that the routines share; the widget's fields are an argument.
unfoldable pub create_widget : ℕ → UiWidget → ℕ → Ui → ℕ × Ui
unfolding add_widget
create_widget win fields allocated ui =
    if win == 0 || leb max_widgets_per_window (ui.window_at win).widget_count
    then (0, ui)
    else if allocated == 0
    then (0, ui)
    else (allocated, add_widget win allocated (set_widget ui allocated fields))

abbrev pub copied_text : List ℕ → List ℕ
copied_text text = take 127 text

unfoldable pub create_button : ℕ → ℤ → ℤ → ℤ → ℤ → List ℕ → ℕ → ℕ → ℕ → ℕ → Ui → ℕ × Ui
unfolding create_widget
create_button win x y width height text bg_color text_color callback allocated ui =
    let fields : UiWidget = record {
      type = ui_button;
      x = x;
      y = y;
      width = width;
      height = height;
      text = copied_text text;
      bg_color = bg_color;
      text_color = text_color;
      text_margin_x = pos 2;
      text_margin_y = pos 0;
      on_click = callback;
      user_data = 0;
      canvas_buffer = 0;
    } in
    create_widget win fields allocated ui

unfoldable pub create_button_with_data :
    ℕ → ℤ → ℤ → ℤ → ℤ → List ℕ → ℕ → ℕ → ℕ → ℕ → ℕ → Ui → ℕ × Ui
unfolding create_button
create_button_with_data win x y width height text bg_color text_color callback user_data allocated
      ui =
    let (widget, ui') =
      create_button win x y width height text bg_color text_color callback allocated ui in
    if widget == 0
    then (0, ui')
    else (widget, set_widget ui' widget (record (ui'.widget_at widget) { user_data = user_data }))

unfoldable pub create_label : ℕ → ℤ → ℤ → ℤ → ℤ → List ℕ → ℕ → ℕ → Ui → ℕ × Ui
unfolding create_widget
create_label win x y width height text text_color allocated ui =
    let fields : UiWidget = record {
      type = ui_label;
      x = x;
      y = y;
      width = width;
      height = height;
      text = copied_text text;
      bg_color = 0;
      text_color = text_color;
      text_margin_x = pos 2;
      text_margin_y = pos 0;
      on_click = 0;
      user_data = 0;
      canvas_buffer = 0;
    } in
    create_widget win fields allocated ui

-- `default_close_callback` and `terminal_close_callback` are addresses.
module _ (default_close terminal_close : ℕ) where
  unfoldable pub close_callback : List ℕ → ℕ
  unfolding strcmp
  close_callback title =
      if eqb_ℤ (strcmp title (codes "Terminal")) (pos 0) then terminal_close else default_close

  -- The button that closes the window, once the window stands in the table.
  unfoldable pub add_close_button : ℕ → ℕ → Ui → Ui
  unfolding close_callback create_button ◌-ℤ◌
  add_close_button win button ui =
      let w : Window = ui.window_at win in
      let btn_size : ℤ = pos 12 in
      let btn_x : ℤ = w.width -ℤ btn_size -ℤ pos 4 in
      let (btn, ui') =
        create_button win btn_x (pos 2) btn_size btn_size (codes "x") 4 15 (close_callback w.title)
          button ui in
      if btn == 0
      then ui'
      else set_widget ui' btn (record (ui'.widget_at btn) { text_margin_y = negsuc 1 })

  -- `allocated` and `button` are what `malloc` returns for the window and its button. The slots of
  -- a new window are written before they are read.
  unfoldable pub create_window : ℤ → ℤ → ℤ → ℤ → ℕ → List ℕ → ℕ → ℕ → Ui → ℕ × Ui
  unfolding add_window add_close_button
  create_window x y width height bg_color title allocated button ui =
      let (win, table') = add_window allocated ui.table in
      let w : Window = record {
        x = x;
        y = y;
        width = width;
        height = height;
        bg_color = bg_color;
        title = copied_text title;
        is_active = true;
        has_title_bar = true;
        widgets = replicate 10 0;
        widget_count = 0;
        canvas = 0;
      } in
      if win == 0
      then (0, ui)
      else (win, add_close_button win button (set_window (record ui { table = table' }) win w))

unfoldable pub move_window : ℕ → ℤ → ℤ → Ui → Ui
move_window win new_x new_y ui =
    if win == 0 then ui else set_window ui win (record (ui.window_at win) { x = new_x; y = new_y })

unfoldable pub resize_window : ℕ → ℤ → ℤ → Ui → Ui
resize_window win new_width new_height ui =
    if win == 0
    then ui
    else set_window ui win (record (ui.window_at win) { width = new_width; height = new_height })
