-- ===== src/Ui/Opening.antt =====
-- Well-formed windows, and that `create_window` of libs/ui/window_manager.c, and whatever keeps
-- them, leave well-formed windows.
use waffle_os.Common.{
  ℕ, ◌+◌, ◌≤◌, ◌<◌, ◌≡◌, ◌≢◌, ◌∙◌, sym, subst, refl, inl, inr, List, ◌==◌, if◌then◌else◌, set,
  get_or, length, length-set, get_or-set_self, ℤ, pos, negsuc, ◌-ℤ◌, codes, arith, Bool-cases,
  ==_refl, ltb,
}
use waffle_os.Windows.Slots.{set-cases}
use waffle_os.Ui.{
  UiWidget, Window, Ui, put_at, set_widget, create_button, close_callback, add_close_button,
  create_window,
}
use waffle_os.Ui.Widgets.{
  IsWindow, new_window, opened, create_window-room, create_window-cases, put_at-elim,
}
use waffle_os.Ui.Steps.{Keeps, unless-Keeps, set_widget-Keeps, create_button-Keeps}

-- At most ten windows, in the ten slots of the table, each a well-formed one behind a pointer that is
-- not NULL.
pub record IsUi (ui : Ui) : Type 0 where
  pub ten_slots : length ui.table.slots ≡ 10
  pub bounded : ui.table.window_count ≤ 10
  pub windows :
      (j : ℕ)
      → j < ui.table.window_count
      → (get_or ui.table.slots j 0 ≢ 0) × IsWindow (ui.window_at (get_or ui.table.slots j 0))

pub Keeps-IsUi : (ui ui' : Ui) → Keeps ui ui' → IsUi ui → IsUi ui'
Keeps-IsUi ui ui' k v = record {
  ten_slots = k.table.same_length ∙ v.ten_slots;
  bounded = omega (arith, k.table.no_more, v.bounded);
  windows = λ j below.
      let (i, below', e) = k.table.from j below in
      let (some_window, w) = v.windows i below' in
      subst (λ q. (q ≢ 0) × IsWindow (ui'.window_at q)) (sym e)
        (some_window, k.windows (get_or ui.table.slots i 0) w);
}

opened_windows :
    (win : ℕ) (w : Window) (ui : Ui)
    → win ≢ 0
    → ui.table.window_count < 10
    → IsWindow w
    → IsUi ui
    → (j : ℕ) → j < ui.table.window_count + 1
    → let slot = get_or (set ui.table.slots ui.table.window_count win) j 0 in
      (slot ≢ 0) × IsWindow ((opened win w ui).window_at slot)
opened_windows win w ui some_window room fresh v j below =
    let good : ℕ → Type 0 = λ q. (q ≢ 0) × IsWindow (put_at ui.window_at win w q) in
    let new : good win = (
      some_window,
      subst (λ b. IsWindow (if b then w else ui.window_at win)) (sym (==_refl win)) fresh,
    ) in
    elim (set-cases ui.table.slots ui.table.window_count win j) [
      | inr (_, e) ↦ subst good (sym e) new
      | inl e ↦ elim (Bool-cases (ltb j ui.table.window_count)) [
        | inl inner ↦
            let (old, valid) = v.windows j (ground arith) in
            let slot = get_or ui.table.slots j 0 in
            subst good (sym e)
              (old, put_at-elim IsWindow ui.window_at win w slot (λ _. fresh) valid)
        | inr at_last ↦
            let same : ui.table.window_count ≡ j = ground arith in
            let in_range : ui.table.window_count < length ui.table.slots =
              omega (arith, v.ten_slots) in
            subst (λ k. good (get_or (set ui.table.slots ui.table.window_count win) k 0)) same
              (subst good
                (sym (get_or-set_self ui.table.slots ui.table.window_count win 0 in_range)) new)
      ]
    ]

opened-IsUi :
    (win : ℕ) (w : Window) (ui : Ui)
    → win ≢ 0
    → ui.table.window_count < 10
    → IsWindow w
    → IsUi ui
    → IsUi (opened win w ui)
opened-IsUi win w ui some_window room fresh v = record {
  ten_slots = length-set ui.table.slots ui.table.window_count win ∙ v.ten_slots;
  bounded = omega arith;
  windows = λ j below. opened_windows win w ui some_window room fresh v j (omega arith);
}

new_window-IsWindow :
    (x y width height : ℤ) (bg_color : ℕ) (title : List ℕ)
    → IsWindow (new_window x y width height bg_color title)
new_window-IsWindow x y width height bg_color title = record {
  ten_slots = refl;
  bounded = omega arith;
  not_null = λ j below. absurd (omega arith);
}

add_close_button-Keeps :
    (default_close terminal_close win button : ℕ) (ui : Ui)
    → Keeps ui (add_close_button default_close terminal_close win button ui)
unfolding add_close_button
add_close_button-Keeps default_close terminal_close win button ui =
    let w : Window = ui.window_at win in
    let btn_x : ℤ = w.width -ℤ pos 12 -ℤ pos 4 in
    let callback : ℕ = close_callback default_close terminal_close w.title in
    let made : ℕ × Ui =
      create_button win btn_x (pos 2) (pos 12) (pos 12) (codes "x") 4 15 callback button ui in
    let kept =
      create_button-Keeps win btn_x (pos 2) (pos 12) (pos 12) (codes "x") 4 15 callback button ui in
    let v : UiWidget = record (made.1.widget_at made.0) { text_margin_y = negsuc 1 } in
    unless-Keeps (made.0 == 0) ui made.1 (set_widget made.1 made.0 v) kept
      (set_widget-Keeps made.0 v ui made.1 kept)

pub create_window-IsUi :
    (default_close terminal_close : ℕ) (x y width height : ℤ) (bg_color : ℕ) (title : List ℕ)
    (allocated button : ℕ) (ui : Ui)
    → IsUi ui
    → IsUi
        (create_window default_close terminal_close x y width height bg_color title allocated button
          ui).1
create_window-IsUi dc tc x y width height bg_color title allocated button ui v =
    let w : Window = new_window x y width height bg_color title in
    elim (create_window-cases dc tc x y width height bg_color title allocated button ui) [
      | inl refused ↦ subst (λ r. IsUi r.1) (sym refused) v
      | inr (some_memory, room) ↦
          let ui1 = opened allocated w ui in
          subst (λ r. IsUi r.1)
            (sym (
              create_window-room dc tc x y width height bg_color title allocated button ui
                some_memory room))
            (Keeps-IsUi ui1 (add_close_button dc tc allocated button ui1)
              (add_close_button-Keeps dc tc allocated button ui1)
              (opened-IsUi allocated w ui some_memory room
                (new_window-IsWindow x y width height bg_color title) v))
    ]
