-- ===== src/Ui/Tests.antt =====
-- The mouse and the windows on concrete inputs.
use waffle_os.Common.{
  ℕ, ◌≡◌, refl, true, false, [], ◌∷◌, ◌++◌, some, replicate, ℤ, pos, codes, arith,
}
use waffle_os.Ui.{ui_label, UiWidget, Window, Ui, create_window, copied_text, close_callback}
use waffle_os.Mouse.{MouseState}
use waffle_os.Ui.Events.{Drag, update_drag, process_mouse_click, update_mouse_click, on_title_bar}
use waffle_os.Common.First.{FirstOf}
use waffle_os.Ui.Clicks.{clickable, all_widgets, process_mouse_click-FirstOf}
use waffle_os.Ui.Dragging.{Held, run_frames, carried_window, drag-follows}
use waffle_os.Ui.Opening.{IsUi}
use waffle_os.Ui.Reachable.{opens, step-IsUi}
use waffle_os.Ui.Closing.{button_x, button_y, close_button-clicked}

abbrev no_window : Window
no_window = record {
  x = pos 0;
  y = pos 0;
  width = pos 0;
  height = pos 0;
  bg_color = 0;
  title = [];
  is_active = false;
  has_title_bar = false;
  widgets = [];
  widget_count = 0;
  canvas = 0;
}

abbrev no_widget : UiWidget
no_widget = record {
  type = ui_label;
  x = pos 0;
  y = pos 0;
  width = pos 0;
  height = pos 0;
  text = [];
  bg_color = 0;
  text_color = 0;
  text_margin_x = pos 0;
  text_margin_y = pos 0;
  on_click = 0;
  user_data = 0;
  canvas_buffer = 0;
}

abbrev empty : Ui
empty = record {
  table = record { slots = replicate 10 0; window_count = 0 };
  window_at = λ p. no_window;
  widget_at = λ p. no_widget;
}

-- Callbacks 11 and 12, a window at 500 with its button at 600 and another one at 700 and 800.
one_open : Ui
unfolding create_window
one_open =
    (create_window 11 12 (pos 40) (pos 30) (pos 100) (pos 60) 7 (codes "Paging") 500 600 empty).1

two_open : Ui
unfolding create_window one_open
two_open =
    (create_window 11 12 (pos 60) (pos 40) (pos 100) (pos 60) 7 (codes "Terminal") 700 800
      one_open).1

close_front : process_mouse_click two_open (pos 150) (pos 45) ≡ some (800, 700)
unfolding process_mouse_click two_open one_open create_window
close_front = refl

-- The window in front covers the point and the close button of the one behind it, which is called.
falls_through : process_mouse_click two_open (pos 130) (pos 40) ≡ some (600, 500)
unfolding process_mouse_click two_open one_open create_window
falls_through = refl

abbrev at : ℤ → ℤ → ℕ → MouseState
at x y buttons = record { x = x; y = y; buttons = buttons }

abbrev idle : Drag
idle = record { dragged_window = 0; drag_offset_x = pos 0; drag_offset_y = pos 0 }

release_clicks : update_mouse_click (at (pos 150) (pos 45) 0) 1 two_open ≡ (0, some (800, 700))
unfolding update_mouse_click process_mouse_click two_open one_open create_window
release_clicks = refl

process_mouse_click-FirstOf_example :
    FirstOf
      (clickable two_open (pos 150) (pos 45))
      (all_widgets two_open two_open.table.window_count)
      (process_mouse_click two_open (pos 150) (pos 45))
process_mouse_click-FirstOf_example = process_mouse_click-FirstOf two_open (pos 150) (pos 45)

one_frame : Held (at (pos 60) (pos 35) 1 ∷ [])
unfolding Held
one_frame = (refl, tt)

grabbed : (update_drag (at (pos 50) (pos 35) 1) (idle, one_open)).0.dragged_window ≡ 500
unfolding update_drag one_open create_window
grabbed = refl

drag-follows_example :
    (on_title_bar (at (pos 50) (pos 35) 1) one_open 500 ≡ true)
    × ((run_frames
          (at (pos 50) (pos 35) 1 ∷ (at (pos 60) (pos 35) 1 ∷ []) ++ at (pos 20) (pos 90) 1 ∷ [])
          (idle, one_open)).1
        ≡ carried_window (at (pos 50) (pos 35) 1) (at (pos 20) (pos 90) 1) one_open 500)
drag-follows_example =
    drag-follows (at (pos 50) (pos 35) 1) (at (pos 60) (pos 35) 1 ∷ []) (at (pos 20) (pos 90) 1)
      idle one_open 500 refl refl one_frame refl grabbed (omega arith)

empty-IsUi : IsUi empty
empty-IsUi = record {
  ten_slots = refl;
  bounded = omega arith;
  windows = λ j below. absurd (omega arith);
}

step-IsUi_example :
    IsUi
      (create_window 11 12 (pos 40) (pos 30) (pos 100) (pos 60) 7 (codes "Paging") 500 600 empty).1
step-IsUi_example =
    step-IsUi 11 12 empty
      (create_window 11 12 (pos 40) (pos 30) (pos 100) (pos 60) 7 (codes "Paging") 500 600 empty).1
      (opens (pos 40) (pos 30) (pos 100) (pos 60) 7 (codes "Paging") 500 600) empty-IsUi

close_button-clicked_example :
    let ui' =
      (create_window 11 12
        (pos 60)
        (pos 40)
        (pos 100)
        (pos 60)
        7
        (codes "Terminal")
        700
        800
        empty).1 in
    (process_mouse_click ui' (button_x (pos 60) (pos 100) 6) (button_y (pos 40) 3)
      ≡ some (800, 700))
    × ((ui'.widget_at 800).on_click ≡ close_callback 11 12 (copied_text (codes "Terminal")))
close_button-clicked_example =
    close_button-clicked 11 12 (pos 60) (pos 40) (pos 100) (pos 60) 7 (codes "Terminal") 700 800
      empty 6 3 (omega arith) (omega arith) (omega arith) (omega arith) (omega arith) refl
      (omega arith) (omega arith) (omega arith) (omega arith)
