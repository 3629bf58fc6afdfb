-- ===== src/Ui/Widgets.antt =====
-- The widgets of a window: the routines of libs/ui/ui_widget.c and `create_window` fill its slots.
use waffle_os.Common.{
  ℕ, ◌+◌, ◌≤◌, ◌<◌, ◌≡◌, ◌≢◌, ◌⊎◌, ◌∙◌, ap, sym, subst, inl, inr, true, false, List, ◌==◌,
  if◌then◌else◌, set, get_or, length, length-set, get_or-set_self, get_or-set_ne, replicate, ℤ,
  arith, Bool-cases,
}
use waffle_os.Windows.{Windows, add_window}
use waffle_os.Ui.{
  UiWidget, Window, Ui, put_at, set_window, set_widget, add_widget, create_widget, add_close_button,
  create_window, copied_text,
}

-- At most ten widgets, each a pointer that is not NULL, in the ten slots of the window.
pub record IsWindow (w : Window) : Type 0 where
  pub ten_slots : length w.widgets ≡ 10
  pub bounded : w.widget_count ≤ 10
  pub not_null : (j : ℕ) → j < w.widget_count → get_or w.widgets j 0 ≢ 0

pub add_window-room :
    (allocated : ℕ) (t : Windows)
    → allocated ≢ 0
    → t.window_count < 10
    → add_window allocated t ≡ (
      allocated,
      record t { slots = set t.slots t.window_count allocated; window_count = t.window_count + 1 },
    )
unfolding add_window
add_window-room allocated t some_memory room = ground arith

pub create_widget-room :
    (win : ℕ) (fields : UiWidget) (allocated : ℕ) (ui : Ui)
    → win ≢ 0
    → (ui.window_at win).widget_count < 10
    → allocated ≢ 0
    → create_widget win fields allocated ui
      ≡ (allocated, add_widget win allocated (set_widget ui allocated fields))
unfolding create_widget
create_widget-room win fields allocated ui some_window room some_memory = ground arith

-- Whatever is missing, nothing is changed.
pub create_widget-cases :
    (win : ℕ) (fields : UiWidget) (allocated : ℕ) (ui : Ui)
    → (create_widget win fields allocated ui ≡ (0, ui))
      ⊎ (((ui.window_at win).widget_count < 10)
          × (allocated ≢ 0)
          × (create_widget win fields allocated ui
              ≡ (allocated, add_widget win allocated (set_widget ui allocated fields))))
unfolding create_widget
create_widget-cases win fields allocated ui = ground arith

get_or-set-not_null :
    (l : List ℕ) (n v j : ℕ)
    → n < length l
    → v ≢ 0
    → ((j : ℕ) → j < n → get_or l j 0 ≢ 0)
    → j < n + 1
    → get_or (set l n v) j 0 ≢ 0
get_or-set-not_null l n v j room some_value before below = elim (Bool-cases (j == n)) [
  | inl at_n ↦
      let e : n ≡ j = ground arith in
      subst (λ k. get_or (set l n v) k 0 ≢ 0) e
        (subst (λ w. w ≢ 0) (sym (get_or-set_self l n v 0 room)) some_value)
  | inr other ↦
      let below' : j < n = ground arith in
      let apart : n ≢ j = omega arith in
      subst (λ w. w ≢ 0) (sym (get_or-set_ne l v 0 apart)) (before j below')
]

pub put_at-elim {ℓ κ} :
    {A : Type ℓ} (P : A → Type κ) (store : ℕ → A) (p : ℕ) (v : A) (q : ℕ)
    → (p ≡ q → P v)
    → P (store q)
    → P (put_at store p v q)
put_at-elim P store p v q new old = elim (Bool-cases (q == p)) [
  | inl same ↦
      let e : p ≡ q = ground arith in subst (λ b. P (if b then v else store q)) (sym same) (new e)
  | inr other ↦ subst (λ b. P (if b then v else store q)) (sym other) old
]

filled-IsWindow :
    (w : Window) (widget : ℕ)
    → w.widget_count < 10
    → widget ≢ 0
    → IsWindow w
    → IsWindow (record w {
      widgets = set w.widgets w.widget_count widget;
      widget_count = w.widget_count + 1;
    })
filled-IsWindow w widget room some_widget v = record {
  ten_slots = length-set w.widgets w.widget_count widget ∙ v.ten_slots;
  bounded = omega arith;
  not_null = λ j below.
      get_or-set-not_null w.widgets w.widget_count widget j (omega (arith, v.ten_slots)) some_widget
        v.not_null below;
}

module _ (p : ℕ) where
  add_widget-IsWindow :
      (win widget : ℕ) (ui : Ui)
      → (ui.window_at win).widget_count < 10
      → widget ≢ 0
      → IsWindow (ui.window_at p)
      → IsWindow ((add_widget win widget ui).window_at p)
  unfolding add_widget
  add_widget-IsWindow win widget ui room some_widget v =
      let w : Window = ui.window_at win in
      put_at-elim IsWindow ui.window_at win
        (record w {
          widgets = set w.widgets w.widget_count widget;
          widget_count = w.widget_count + 1;
        })
        p
        (λ same.
          filled-IsWindow w widget room some_widget
            (subst (λ q. IsWindow (ui.window_at q)) (sym same) v))
        v

  pub create_widget-IsWindow :
      (win : ℕ) (fields : UiWidget) (allocated : ℕ) (ui : Ui)
      → IsWindow (ui.window_at p)
      → IsWindow ((create_widget win fields allocated ui).1.window_at p)
  create_widget-IsWindow win fields allocated ui v =
      elim (create_widget-cases win fields allocated ui) [
        | inl refused ↦ subst (λ r. IsWindow (r.1.window_at p)) (sym refused) v
        | inr (room, some_memory, e) ↦
            subst (λ r. IsWindow (r.1.window_at p)) (sym e)
              (add_widget-IsWindow win allocated (set_widget ui allocated fields) room some_memory
                v)
      ]

-- The window before it has its button.
abbrev pub new_window : ℤ → ℤ → ℤ → ℤ → ℕ → List ℕ → Window
new_window x y width height bg_color title = record {
  x = x;
  y = y;
  width = width;
  height = height;
  bg_color = bg_color;
  title = copied_text title;
  is_active = true;
  has_title_bar = true;
  widgets = replicate 10 0;
  widget_count = 0;
  canvas = 0;
}

abbrev pub opened : ℕ → Window → Ui → Ui
opened win w ui =
    set_window
      (record ui {
        table = record ui.table {
          slots = set ui.table.slots ui.table.window_count win;
          window_count = ui.table.window_count + 1;
        };
      })
      win w

add_window-cases :
    (allocated : ℕ) (t : Windows)
    → (add_window allocated t ≡ (0, t)) ⊎ ((allocated ≢ 0) × (t.window_count < 10))
unfolding add_window
add_window-cases allocated t = ground arith

module _ (default_close terminal_close : ℕ) (x y width height : ℤ) (bg_color : ℕ) (title : List ℕ)
    (allocated button : ℕ) (ui : Ui) where
  abbrev finish : ℕ × Windows → ℕ × Ui
  finish (win, table') = if win == 0 then (0, ui) else (
    win,
    add_close_button default_close terminal_close win button (
        set_window (record ui { table = table' }) win (new_window x y width height bg_color title)),
  )

  pub create_window-room :
      allocated ≢ 0
      → ui.table.window_count < 10
      → create_window default_close terminal_close x y width height bg_color title allocated button
          ui
        ≡ (
          allocated,
          add_close_button default_close terminal_close allocated button
              (opened allocated (new_window x y width height bg_color title) ui),
        )
  unfolding create_window
  create_window-room some_memory room =
      let real : (allocated == 0) ≡ false = ground arith in
      let made : ℕ × Ui = (
        allocated,
        add_close_button default_close terminal_close allocated button
            (opened allocated (new_window x y width height bg_color title) ui),
      ) in
      ap finish (add_window-room allocated ui.table some_memory room)
      ∙ ap (λ b. if b then (0, ui) else made) real

  -- With no room or no memory for it there is no window.
  pub create_window-cases :
      (create_window default_close terminal_close x y width height bg_color title allocated button
          ui
        ≡ (0, ui))
      ⊎ ((allocated ≢ 0) × (ui.table.window_count < 10))
  unfolding create_window
  create_window-cases = elim (add_window-cases allocated ui.table) [
    | inl refused ↦ inl (ap finish refused)
    | inr room ↦ inr room
  ]
