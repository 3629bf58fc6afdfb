-- ===== src/Ui/Button.antt =====
-- The store once `create_window` of libs/ui/window_manager.c has given a window its close button.
use waffle_os.Common.{
  ℕ, ◌+◌, ◌<◌, ◌≡◌, ◌≢◌, ◌∙◌, ap, false, ◌==◌, if◌then◌else◌, set, pos, negsuc, ◌-ℤ◌, codes, arith,
  ==_refl,
}
use waffle_os.Ui.{
  ui_button, UiWidget, Window, Ui, put_at, set_widget, add_widget, create_button, close_callback,
  add_close_button,
}
use waffle_os.Ui.Widgets.{create_widget-room, opened}

module _ (default_close terminal_close : ℕ) where
  abbrev pub close_button : Window → UiWidget
  close_button w = record {
    type = ui_button;
    x = w.width -ℤ pos 12 -ℤ pos 4;
    y = pos 2;
    width = pos 12;
    height = pos 12;
    text = codes "x";
    bg_color = 4;
    text_color = 15;
    text_margin_x = pos 2;
    text_margin_y = pos 0;
    on_click = close_callback default_close terminal_close w.title;
    user_data = 0;
    canvas_buffer = 0;
  }

  abbrev pub with_button : ℕ → ℕ → Ui → Ui
  with_button win button ui =
      add_widget win button (set_widget ui button (close_button (ui.window_at win)))

  abbrev pub with_close : ℕ → ℕ → Ui → Ui
  with_close win button ui =
      let made : Ui = with_button win button ui in
      set_widget made button (record (made.widget_at button) { text_margin_y = negsuc 1 })

  pub add_close_button-room :
      (win button : ℕ) (ui : Ui)
      → win ≢ 0
      → button ≢ 0
      → (ui.window_at win).widget_count < 10
      → add_close_button default_close terminal_close win button ui ≡ with_close win button ui
  unfolding add_close_button create_button
  add_close_button-room win button ui some_window some_memory room =
      let real : (button == 0) ≡ false = ground arith in
      let finish : ℕ × Ui → Ui = λ r.
        if r.0 == 0
        then r.1
        else set_widget r.1 r.0 (record (r.1.widget_at r.0) { text_margin_y = negsuc 1 }) in
      ap finish (
        create_widget-room win (close_button (ui.window_at win)) button ui some_window room
          some_memory)
      ∙ ap (λ b. if b then with_button win button ui else with_close win button ui) real

  module _ (win button : ℕ) (w : Window) (ui : Ui) where
    abbrev pub shown : Ui
    shown = with_close win button (opened win w ui)

    pub shown-window : shown.window_at win ≡ record w {
      widgets = set w.widgets w.widget_count button;
      widget_count = w.widget_count + 1;
    }
    unfolding add_widget
    shown-window =
        let filled : Window → Window = λ w. record w {
          widgets = set w.widgets w.widget_count button;
          widget_count = w.widget_count + 1;
        } in
        let old : Window = put_at ui.window_at win w win in
        ap (λ b. if b then filled old else old) (==_refl win)
        ∙ ap (λ b. filled (if b then w else ui.window_at win)) (==_refl win)

    pub shown-widget : shown.widget_at button ≡ record (close_button w) { text_margin_y = negsuc 1 }
    unfolding add_widget
    shown-widget =
        let mark : UiWidget → UiWidget = λ v. record v { text_margin_y = negsuc 1 } in
        let old : UiWidget =
          put_at ui.widget_at button (close_button (put_at ui.window_at win w win)) button in
        ap (λ b. if b then mark old else old) (==_refl button)
        ∙ ap
            (λ b.
              mark
                (if b then close_button (put_at ui.window_at win w win) else ui.widget_at button))
            (==_refl button)
        ∙ ap (λ b. mark (close_button (if b then w else ui.window_at win))) (==_refl win)
