-- ===== src/Ui/Clicks.antt =====
-- Which callback a click calls: `process_mouse_click` of libs/ui/events.c against the list of all
-- the pairs of a widget and its window in the order of the windows.
use waffle_os.Common.{
  ℕ, zero, suc, ◌+◌, ◌≡◌, ap, refl, Bool, true, false, ◌&&◌, List, [], ◌∷◌, ◌++◌, none,
  if◌then◌else◌, get_or, ℤ,
}
use waffle_os.Common.First.{FirstOf, nowhere, later, first-next, first-either}
use waffle_os.Ui.{Ui}
use waffle_os.Ui.Events.{takes_click, looked_at, click_widgets, click_windows, process_mouse_click}

module _ (ui : Ui) where
  -- The first `n` slots of a window from `j` on, with the window.
  unfoldable pub widgets_of : ℕ → ℕ → ℕ → List (ℕ × ℕ)
  widgets_of win zero j = []
  widgets_of win (suc n) j = (get_or (ui.window_at win).widgets j 0, win) ∷ widgets_of win n (j + 1)

  -- Every widget of the windows, the window in front first and its widgets in the order in which
  -- they were made.
  unfoldable pub all_widgets : ℕ → List (ℕ × ℕ)
  all_widgets zero = []
  all_widgets (suc i) =
      let win = get_or ui.table.slots i 0 in
      widgets_of win (ui.window_at win).widget_count 0 ++ all_widgets i

  module _ (click_x click_y : ℤ) where
    -- A widget that is under the pointer and has a callback, of an active window under the pointer.
    abbrev pub clickable : ℕ × ℕ → Bool
    clickable (widget, win) =
        looked_at ui click_x click_y win && takes_click ui click_x click_y win widget

    click_widgets-FirstOf :
        (win n j : ℕ)
        → looked_at ui click_x click_y win ≡ true
        → FirstOf clickable (widgets_of win n j) (click_widgets ui click_x click_y win n j)
    unfolding click_widgets widgets_of
    click_widgets-FirstOf win zero j looked = nowhere
    click_widgets-FirstOf win (suc n) j looked =
        let widget = get_or (ui.window_at win).widgets j 0 in
        first-next (takes_click ui click_x click_y win widget)
          (ap (λ b. b && takes_click ui click_x click_y win widget) looked)
          (click_widgets-FirstOf win n (j + 1) looked)

    skipped :
        (win n j : ℕ)
        → looked_at ui click_x click_y win ≡ false
        → FirstOf clickable (widgets_of win n j) none
    unfolding widgets_of
    skipped win zero j off = nowhere
    skipped win (suc n) j off =
        later
          (ap (λ b. b && takes_click ui click_x click_y win (get_or (ui.window_at win).widgets j 0))
            off)
          (skipped win n (j + 1) off)

    looked-FirstOf :
        (win n : ℕ) (b : Bool)
        → looked_at ui click_x click_y win ≡ b
        → FirstOf clickable
            (widgets_of win n 0)
            (if b then click_widgets ui click_x click_y win n 0 else none)
    looked-FirstOf win n true e = click_widgets-FirstOf win n 0 e
    looked-FirstOf win n false e = skipped win n 0 e

    click_windows-FirstOf :
        (i : ℕ) → FirstOf clickable (all_widgets i) (click_windows ui click_x click_y i)
    unfolding click_windows all_widgets
    click_windows-FirstOf zero = nowhere
    click_windows-FirstOf (suc i) =
        let win = get_or ui.table.slots i 0 in
        let looked = looked_at ui click_x click_y win in
        let count = (ui.window_at win).widget_count in
        first-either (if looked then click_widgets ui click_x click_y win count 0 else none)
          (click_windows ui click_x click_y i) (looked-FirstOf win count looked refl)
          (click_windows-FirstOf i)

    -- A click calls the callback of the first clickable widget in the order from the window in front
    -- to the one at the back, and in each window in the order in which its widgets were made; it
    -- calls none only if no widget of any window is clickable. A widget is clickable if the pointer is
    -- in it and in its window, the window is active and the widget has a callback.
    pub process_mouse_click-FirstOf :
        FirstOf clickable
          (all_widgets ui.table.window_count)
          (process_mouse_click ui click_x click_y)
    unfolding process_mouse_click
    process_mouse_click-FirstOf = click_windows-FirstOf ui.table.window_count
