-- ===== src/Ui/Events.antt =====
-- Mouse events on windows: libs/ui/events.c and `update_mouse_click` of libs/gui.c.
use waffle_os.Common.{
  ℕ, zero, suc, ◌+◌, ◌%◌, Bool, true, false, not, ◌&&◌, Option, none, some, ◌==◌, if◌then◌else◌,
  get_or, ℤ, pos, ltb_ℤ, leb_ℤ, ◌+ℤ◌, ◌-ℤ◌,
}
use waffle_os.Mouse.{MouseState}
use waffle_os.Ui.{UiWidget, Window, Ui, set_window}

abbrev pub left_pressed : MouseState → Bool
left_pressed m = m.buttons % 2 == 1

-- Whether (px, py) lies in the box at (x, y).
unfoldable pub in_box : ℤ → ℤ → ℤ → ℤ → ℤ → ℤ → Bool
unfolding ◌+ℤ◌
in_box px py x y width height =
    leb_ℤ x px && (ltb_ℤ px (x +ℤ width) && (leb_ℤ y py && ltb_ℤ py (y +ℤ height)))

module _ (ui : Ui) (click_x click_y : ℤ) where
  unfoldable pub in_window : ℕ → Bool
  unfolding in_box
  in_window win =
      let w : Window = ui.window_at win in in_box click_x click_y w.x w.y w.width w.height

  unfoldable pub in_widget : ℕ → ℕ → Bool
  unfolding in_box ◌+ℤ◌
  in_widget win widget =
      let w : Window = ui.window_at win in
      let v : UiWidget = ui.widget_at widget in
      in_box click_x click_y (w.x +ℤ v.x) (w.y +ℤ v.y) v.width v.height

  -- Whether the loop over the widgets calls the callback of this one.
  unfoldable pub takes_click : ℕ → ℕ → Bool
  unfolding in_widget
  takes_click win widget =
      not (widget == 0) && (in_widget win widget && not ((ui.widget_at widget).on_click == 0))

  -- The loop over `j`, with the rounds that are left: the widget and the window of the call made.
  unfoldable pub click_widgets : ℕ → ℕ → ℕ → Option (ℕ × ℕ)
  unfolding takes_click
  click_widgets win zero j = none
  click_widgets win (suc rounds) j =
      let widget : ℕ = get_or (ui.window_at win).widgets j 0 in
      elim (takes_click win widget) [
        | true ↦ some (widget, win)
        | false ↦ click_widgets win rounds (j + 1)
      ]

  -- The tests on a window before its widgets are looked at.
  unfoldable pub looked_at : ℕ → Bool
  unfolding in_window
  looked_at win = not (win == 0) && ((ui.window_at win).is_active && in_window win)

  -- The loop over `i`, from the window in front.
  unfoldable pub click_windows : ℕ → Option (ℕ × ℕ)
  unfolding looked_at click_widgets
  click_windows zero = none
  click_windows (suc i) =
      let win : ℕ = get_or ui.table.slots i 0 in
      let behind : Option (ℕ × ℕ) = click_windows i in
      let call : Option (ℕ × ℕ) =
        if looked_at win then click_widgets win (ui.window_at win).widget_count 0 else none in
      elim call [ some c ↦ some c | none ↦ behind ]

  -- The callback that is called is the widget's, with the widget and the window as its arguments.
  unfoldable pub process_mouse_click : Option (ℕ × ℕ)
  unfolding click_windows
  process_mouse_click = click_windows ui.table.window_count

-- The next value of `previous_buttons` and the call that is made.
unfoldable pub update_mouse_click : MouseState → ℕ → Ui → ℕ × Option (ℕ × ℕ)
unfolding process_mouse_click
update_mouse_click mouse previous_buttons ui =
    let released : Bool = previous_buttons % 2 == 1 && not (left_pressed mouse) in
    (mouse.buttons, if released then process_mouse_click ui mouse.x mouse.y else none)

-- The static variables of the dragging.
pub record Drag : Type 0 where
  pub dragged_window : ℕ
  pub drag_offset_x : ℤ
  pub drag_offset_y : ℤ

-- Whether the pointer is on the title bar of a window that can be dragged.
unfoldable pub on_title_bar : MouseState → Ui → ℕ → Bool
unfolding in_box
on_title_bar mouse ui win =
    let w : Window = ui.window_at win in
    not (win == 0)
    && (w.is_active && (w.has_title_bar && in_box mouse.x mouse.y w.x w.y w.width (pos 16)))

unfoldable pub begin_drag : MouseState → Ui → ℕ → Drag → Drag
unfolding on_title_bar ◌-ℤ◌
begin_drag mouse ui zero d = d
begin_drag mouse ui (suc i) d =
    let win : ℕ = get_or ui.table.slots i 0 in
    elim (on_title_bar mouse ui win) [
      | true ↦ record {
        dragged_window = win;
        drag_offset_x = mouse.x -ℤ (ui.window_at win).x;
        drag_offset_y = mouse.y -ℤ (ui.window_at win).y;
      }
      | false ↦ begin_drag mouse ui i d
    ]

unfoldable pub drag_to : MouseState → Drag → Ui → Ui
unfolding ◌-ℤ◌
drag_to mouse d ui = set_window ui d.dragged_window (record (ui.window_at d.dragged_window) {
  x = mouse.x -ℤ d.drag_offset_x;
  y = mouse.y -ℤ d.drag_offset_y;
})

unfoldable pub update_drag : MouseState → Drag × Ui → Drag × Ui
unfolding begin_drag drag_to
update_drag mouse (d, ui) = elim (left_pressed mouse) [
  | false ↦ (record d { dragged_window = 0 }, ui)
  | true ↦ elim (d.dragged_window == 0) [
    | true ↦ (begin_drag mouse ui ui.table.window_count d, ui)
    | false ↦ (d, drag_to mouse d ui)
  ]
]
