-- ===== src/Ui/Closing.antt =====
-- The close button of a new window: `create_window` of libs/ui/window_manager.c and a click on it.
use waffle_os.Common.{
  ℕ, suc, ◌+◌, ◌<◌, ◌≡◌, ◌≢◌, ◌∙◌, ap, refl, Bool, true, false, not, ◌&&◌, List, some, ◌==◌,
  if◌then◌else◌, get_or, length, get_or-set_self, ℤ, pos, ◌+ℤ◌, ◌-ℤ◌, ◌≤ℤ◌, codes, eqb_ℤ, arith,
  ==_refl, int_laws,
}
use waffle_os.Strings.{strcmp}
use waffle_os.Ui.{UiWidget, Window, Ui, add_widget, close_callback, create_window, copied_text}
use waffle_os.Ui.Events.{in_box, in_window, in_widget, takes_click, looked_at, process_mouse_click}
use waffle_os.Ui.Widgets.{new_window, opened, create_window-room}
use waffle_os.Ui.Front.{click-first, both, in_box-true, nonzero}
use waffle_os.Ui.Button.{add_close_button-room, shown, shown-window, shown-widget}

-- The pixel (i, j) of the close button.
abbrev pub button_x : ℤ → ℤ → ℕ → ℤ
button_x x width i = x +ℤ (width -ℤ pos 12 -ℤ pos 4) +ℤ pos i

abbrev pub button_y : ℤ → ℕ → ℤ
button_y y j = y +ℤ pos 2 +ℤ pos j

on_button :
    (x y width height : ℤ) (i j : ℕ)
    → i < 12
    → j < 12
    → in_box
        (button_x x width i)
        (button_y y j)
        (x +ℤ (width -ℤ pos 12 -ℤ pos 4))
        (y +ℤ pos 2)
        (pos 12)
        (pos 12)
      ≡ true
on_button x y width height i j left top =
    in_box-true (button_x x width i) (button_y y j) (x +ℤ (width -ℤ pos 12 -ℤ pos 4)) (y +ℤ pos 2)
      (pos 12) (pos 12) (grind int_laws) (grind int_laws) (grind int_laws) (grind int_laws)

on_window :
    (x y width height : ℤ) (i j : ℕ)
    → pos 16 ≤ℤ width
    → pos 14 ≤ℤ height
    → i < 12
    → j < 12
    → in_box (button_x x width i) (button_y y j) x y width height ≡ true
on_window x y width height i j wide tall left top =
    in_box-true (button_x x width i) (button_y y j) x y width height (grind int_laws)
      (grind int_laws) (grind int_laws) (grind int_laws)

one_widget : 0 + 1 ≡ suc 0
one_widget = omega arith

no_widgets :
    (win : ℕ) (w : Window) (ui : Ui)
    → w.widget_count ≡ 0
    → ((opened win w ui).window_at win).widget_count < 10
no_widgets win w ui fresh =
    let e = ap (λ b. (if b then w else ui.window_at win).widget_count) (==_refl win) in omega arith

close_callback-nonzero :
    (default_close terminal_close : ℕ) (title : List ℕ)
    → default_close ≢ 0
    → terminal_close ≢ 0
    → close_callback default_close terminal_close title ≢ 0
unfolding close_callback
close_callback-nonzero default_close terminal_close title a b =
    elim (eqb_ℤ (strcmp title (codes "Terminal")) (pos 0))
      as (λ c. (if c then terminal_close else default_close) ≢ 0) [ true ↦ b | false ↦ a ]

module _ (dc tc : ℕ) (x y width height : ℤ) (bg_color : ℕ) (title : List ℕ) (win button : ℕ)
    (ui : Ui) (i j : ℕ) (some_close : dc ≢ 0) (some_terminal : tc ≢ 0) (some_memory : win ≢ 0)
    (some_button : button ≢ 0) (wide : pos 16 ≤ℤ width) (tall : pos 14 ≤ℤ height) (left : i < 12)
    (top : j < 12) where
  abbrev w : Window
  w = new_window x y width height bg_color title

  abbrev after : Ui
  after = shown dc tc win button w ui

  after-looked_at : looked_at after (button_x x width i) (button_y y j) win ≡ true
  unfolding looked_at in_window
  after-looked_at =
      ap
        (λ v.
          not (win == 0)
          && (v.is_active && in_box (button_x x width i) (button_y y j) v.x v.y v.width v.height))
        (shown-window dc tc win button w ui)
      ∙ both (not (win == 0)) (nonzero win some_memory)
          (on_window x y width height i j wide tall left top)

  after-takes_click : takes_click after (button_x x width i) (button_y y j) win button ≡ true
  unfolding takes_click in_widget
  after-takes_click =
      let test : Window → UiWidget → Bool = λ w v.
        not (button == 0)
        && (in_box (button_x x width i) (button_y y j) (w.x +ℤ v.x) (w.y +ℤ v.y) v.width v.height
            && not (v.on_click == 0)) in
      let inside = on_button x y width height i j left top in
      let callback = close_callback dc tc w.title in
      ap (λ v. test v (after.widget_at button)) (shown-window dc tc win button w ui)
      ∙ ap (test w) (shown-widget dc tc win button w ui)
      ∙ both (not (button == 0)) (nonzero button some_button) (
          both
            (in_box (button_x x width i) (button_y y j) (x +ℤ (width -ℤ pos 12 -ℤ pos 4))
              (y +ℤ pos 2) (pos 12) (pos 12))
            inside
            (nonzero callback (close_callback-nonzero dc tc w.title some_close some_terminal)))

  after-clicked :
      ui.table.window_count < length ui.table.slots
      → process_mouse_click after (button_x x width i) (button_y y j) ≡ some (button, win)
  unfolding add_widget
  after-clicked room =
      click-first after (button_x x width i) (button_y y j) ui.table.window_count 0 win button
        (omega arith) (get_or-set_self ui.table.slots ui.table.window_count win 0 room)
        after-looked_at (ap (λ v. v.widget_count) (shown-window dc tc win button w ui) ∙ one_widget)
        (ap (λ v. get_or v.widgets 0 0) (shown-window dc tc win button w ui)) after-takes_click

-- The button that closes a window can be clicked as soon as the window is made: when there is room in
-- the table of ten slots and memory for the window and its button, neither callback is NULL, and the
-- window is at least 16 pixels wide and 14 high, a click on any pixel of the 12 by 12 button in its title bar calls a callback with this
-- button and this window, whatever windows are behind it. The callback is the one that the title,
-- cut to 127 characters, selects.
pub close_button-clicked :
    (default_close terminal_close : ℕ) (x y width height : ℤ) (bg_color : ℕ) (title : List ℕ)
    (allocated button : ℕ) (ui : Ui) (i j : ℕ)
    → default_close ≢ 0
    → terminal_close ≢ 0
    → allocated ≢ 0
    → button ≢ 0
    → ui.table.window_count < 10
    → length ui.table.slots ≡ 10
    → pos 16 ≤ℤ width
    → pos 14 ≤ℤ height
    → i < 12
    → j < 12
    → let ui' =
        (create_window default_close terminal_close x y width height bg_color title allocated button
          ui).1 in
      (process_mouse_click ui' (button_x x width i) (button_y y j) ≡ some (button, allocated))
      × ((ui'.widget_at button).on_click
          ≡ close_callback default_close terminal_close (copied_text title))
close_button-clicked dc tc x y width height bg_color title win button ui i j some_close
      some_terminal some_memory some_button room ten wide tall left top =
    let w : Window = new_window x y width height bg_color title in
    let made =
      ap (λ r. r.1)
        (create_window-room dc tc x y width height bg_color title win button ui some_memory room)
      ∙ add_close_button-room dc tc win button (opened win w ui) some_memory some_button
          (no_widgets win w ui refl) in
    (
      ap (λ u. process_mouse_click u (button_x x width i) (button_y y j)) made
          ∙ after-clicked dc tc x y width height bg_color title win button ui i j some_close
              some_terminal some_memory some_button wide tall left top (omega arith),
      ap (λ u. (u.widget_at button).on_click) made
          ∙ ap (λ v. v.on_click) (shown-widget dc tc win button w ui),
    )
