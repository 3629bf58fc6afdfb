-- ===== src/Ui/Steps.antt =====
-- Every operation on the windows keeps them well formed.
use waffle_os.Common.{
  ℕ, ◌≡◌, ◌⊎◌, sym, subst, refl, inl, inr, Bool, true, false, List, ◌==◌, if◌then◌else◌, ℤ, pos,
  ◌-ℤ◌, arith,
}
use waffle_os.Windows.Slots.{HoldsOf, HoldsOf-refl}
use waffle_os.Ui.{
  ui_button, ui_label, UiWidget, Window, Ui, set_window, set_widget, add_widget, create_widget,
  create_button, create_button_with_data, create_label, move_window, resize_window, copied_text,
}
use waffle_os.Mouse.{MouseState}
use waffle_os.Ui.Events.{Drag, update_drag, drag_to}
use waffle_os.Ui.Widgets.{IsWindow, create_widget-cases, put_at-elim, create_widget-IsWindow}

-- What every operation but `create_window` does: it keeps every well-formed window well formed, and
-- puts no other window in the table.
pub record Keeps (ui ui' : Ui) : Type 0 where
  pub windows : (p : ℕ) → IsWindow (ui.window_at p) → IsWindow (ui'.window_at p)
  pub table : HoldsOf ui.table ui'.table

pub Keeps-refl : (ui : Ui) → Keeps ui ui
Keeps-refl ui = record { windows = λ p v. v; table = HoldsOf-refl ui.table }

pub create_widget-Keeps :
    (win : ℕ) (fields : UiWidget) (allocated : ℕ) (ui : Ui)
    → Keeps ui (create_widget win fields allocated ui).1
unfolding add_widget
create_widget-Keeps win fields allocated ui = elim (create_widget-cases win fields allocated ui) [
  | inl refused ↦ subst (λ r. Keeps ui r.1) (sym refused) (Keeps-refl ui)
  | inr (_, _, e) ↦ record {
    windows = λ p v. create_widget-IsWindow p win fields allocated ui v;
    table = subst (λ r. HoldsOf ui.table r.1.table) (sym e) (HoldsOf-refl ui.table);
  }
]

-- A change of the widget that was made.
pub set_widget-Keeps :
    (widget : ℕ) (v : UiWidget) (ui ui' : Ui) → Keeps ui ui' → Keeps ui (set_widget ui' widget v)
set_widget-Keeps widget v ui ui' k = record { windows = λ p w. k.windows p w; table = k.table }

pub unless-Keeps :
    (b : Bool) (ui ui' ui'' : Ui)
    → Keeps ui ui'
    → Keeps ui ui''
    → Keeps ui (if b then ui' else ui'')
unless-Keeps true ui ui' ui'' k k' = k
unless-Keeps false ui ui' ui'' k k' = k'

abbrev second : Bool → ℕ → Ui → Ui → Ui
second b widget ui' ui'' = let r : ℕ × Ui = if b then (0, ui') else (widget, ui'') in r.1

button_data :
    (b : Bool) (widget : ℕ) (ui' ui'' : Ui) → (if b then ui' else ui'') ≡ second b widget ui' ui''
button_data true widget ui' ui'' = refl
button_data false widget ui' ui'' = refl

pub create_button-Keeps :
    (win : ℕ) (x y width height : ℤ) (text : List ℕ) (bg_color text_color callback allocated : ℕ)
    (ui : Ui)
    → Keeps ui (create_button win x y width height text bg_color text_color callback allocated ui).1
unfolding create_button
create_button-Keeps win x y width height text bg_color text_color callback allocated ui =
    create_widget-Keeps win
      (record {
        type = ui_button;
        x = x;
        y = y;
        width = width;
        height = height;
        text = copied_text text;
        bg_color = bg_color;
        text_color = text_color;
        text_margin_x = pos 2;
        text_margin_y = pos 0;
        on_click = callback;
        user_data = 0;
        canvas_buffer = 0;
      })
      allocated ui

pub create_label-Keeps :
    (win : ℕ) (x y width height : ℤ) (text : List ℕ) (text_color allocated : ℕ) (ui : Ui)
    → Keeps ui (create_label win x y width height text text_color allocated ui).1
unfolding create_label
create_label-Keeps win x y width height text text_color allocated ui =
    create_widget-Keeps win
      (record {
        type = ui_label;
        x = x;
        y = y;
        width = width;
        height = height;
        text = copied_text text;
        bg_color = 0;
        text_color = text_color;
        text_margin_x = pos 2;
        text_margin_y = pos 0;
        on_click = 0;
        user_data = 0;
        canvas_buffer = 0;
      })
      allocated ui

pub create_button_with_data-Keeps :
    (win : ℕ) (x y width height : ℤ) (text : List ℕ)
    (bg_color text_color callback user_data allocated : ℕ) (ui : Ui)
    → Keeps ui
        (create_button_with_data win x y width height text bg_color text_color callback user_data
          allocated ui).1
unfolding create_button_with_data
create_button_with_data-Keeps win x y width height text bg_color text_color callback user_data
      allocated ui =
    let made : ℕ × Ui =
      create_button win x y width height text bg_color text_color callback allocated ui in
    let kept =
      create_button-Keeps win x y width height text bg_color text_color callback allocated ui in
    let v : UiWidget = record (made.1.widget_at made.0) { user_data = user_data } in
    subst (Keeps ui) (button_data (made.0 == 0) made.0 made.1 (set_widget made.1 made.0 v)) (
      unless-Keeps (made.0 == 0) ui made.1 (set_widget made.1 made.0 v) kept
        (set_widget-Keeps made.0 v ui made.1 kept))

pub set_window-Keeps :
    (win : ℕ) (w : Window) (ui : Ui)
    → (IsWindow (ui.window_at win) → IsWindow w)
    → Keeps ui (set_window ui win w)
set_window-Keeps win w ui keep = record {
  windows = λ p v.
      put_at-elim IsWindow ui.window_at win w p
        (λ e. keep (subst (λ q. IsWindow (ui.window_at q)) (sym e) v)) v;
  table = HoldsOf-refl ui.table;
}

boxed-IsWindow :
    (w : Window) (x y width height : ℤ)
    → IsWindow w
    → IsWindow (record w { x = x; y = y; width = width; height = height })
boxed-IsWindow w x y width height v = record {
  ten_slots = v.ten_slots;
  bounded = v.bounded;
  not_null = λ j below. v.not_null j below;
}

pub move_window-Keeps : (win : ℕ) (x y : ℤ) (ui : Ui) → Keeps ui (move_window win x y ui)
unfolding move_window
move_window-Keeps win x y ui =
    let w : Window = ui.window_at win in
    unless-Keeps (win == 0) ui ui (set_window ui win (record w { x = x; y = y })) (Keeps-refl ui)
      (set_window-Keeps win (record w { x = x; y = y }) ui (boxed-IsWindow w x y w.width w.height))

pub resize_window-Keeps :
    (win : ℕ) (width height : ℤ) (ui : Ui) → Keeps ui (resize_window win width height ui)
unfolding resize_window
resize_window-Keeps win width height ui =
    let w : Window = ui.window_at win in
    unless-Keeps (win == 0) ui ui (set_window ui win (record w { width = width; height = height }))
      (Keeps-refl ui)
      (set_window-Keeps win (record w { width = width; height = height }) ui
        (boxed-IsWindow w w.x w.y width height))

drag_to-Keeps : (mouse : MouseState) (d : Drag) (ui : Ui) → Keeps ui (drag_to mouse d ui)
unfolding drag_to
drag_to-Keeps mouse d ui =
    let win = d.dragged_window in
    let w : Window = ui.window_at win in
    let x = mouse.x -ℤ d.drag_offset_x in
    let y = mouse.y -ℤ d.drag_offset_y in
    set_window-Keeps win (record w { x = x; y = y }) ui (boxed-IsWindow w x y w.width w.height)

frame-cases :
    (mouse : MouseState) (d : Drag) (ui : Ui)
    → ((update_drag mouse (d, ui)).1 ≡ ui) ⊎ ((update_drag mouse (d, ui)).1 ≡ drag_to mouse d ui)
unfolding update_drag
frame-cases mouse d ui = ground arith

pub update_drag-Keeps :
    (mouse : MouseState) (d : Drag) (ui : Ui) → Keeps ui (update_drag mouse (d, ui)).1
update_drag-Keeps mouse d ui = elim (frame-cases mouse d ui) [
  | inl same ↦ subst (Keeps ui) (sym same) (Keeps-refl ui)
  | inr moved ↦ subst (Keeps ui) (sym moved) (drag_to-Keeps mouse d ui)
]
