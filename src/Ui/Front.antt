-- ===== src/Ui/Front.antt =====
-- A click on the first widget of the window in front, in the terms of libs/ui/events.c.
use waffle_os.Common.{
  ℕ, suc, ◌+◌, ◌≡◌, ◌≢◌, ◌∙◌, ap, Bool, true, false, not, ◌&&◌, Option, none, some, ◌==◌,
  if◌then◌else◌, get_or, ℤ, pos, leb_ℤ, ltb_ℤ, ◌+ℤ◌, ◌≤ℤ◌, arith,
}
use waffle_os.Ui.{Ui}
use waffle_os.Ui.Events.{
  in_box, takes_click, looked_at, click_widgets, click_windows, process_mouse_click,
}

-- A click that the first widget of the window in front takes.
pub click-first :
    (ui : Ui) (click_x click_y : ℤ) (n m win widget : ℕ)
    → ui.table.window_count ≡ suc n
    → get_or ui.table.slots n 0 ≡ win
    → looked_at ui click_x click_y win ≡ true
    → (ui.window_at win).widget_count ≡ suc m
    → get_or (ui.window_at win).widgets 0 0 ≡ widget
    → takes_click ui click_x click_y win widget ≡ true
    → process_mouse_click ui click_x click_y ≡ some (widget, win)
unfolding process_mouse_click click_windows click_widgets
click-first ui click_x click_y n m win widget count front looked one it takes =
    let go : Option (ℕ × ℕ) → Option (ℕ × ℕ) =
      λ c. elim c [ some c ↦ some c | none ↦ click_windows ui click_x click_y n ] in
    let choose : Bool → ℕ → Option (ℕ × ℕ) = λ b v. elim b [
      | true ↦ some (v, win)
      | false ↦ click_widgets ui click_x click_y win m (0 + 1)
    ] in
    ap (click_windows ui click_x click_y) count
    ∙ ap
        (λ v. go (
          if looked_at ui click_x click_y v
          then click_widgets ui click_x click_y v (ui.window_at v).widget_count 0
          else none))
        front
    ∙ ap
        (λ b. go (
          if b
          then click_widgets ui click_x click_y win (ui.window_at win).widget_count 0
          else none))
        looked
    ∙ ap (λ k. go (click_widgets ui click_x click_y win k 0)) one
    ∙ ap (λ v. go (choose (takes_click ui click_x click_y win v) v)) it
    ∙ ap (λ b. go (choose b widget)) takes

pub both : (b : Bool) {c : Bool} → b ≡ true → c ≡ true → (b && c) ≡ true
both b {c = c} p q = ap (λ b. b && c) p ∙ q

leb-true : (a b : ℤ) → a ≤ℤ b → leb_ℤ a b ≡ true
leb-true a b h = ground arith

ltb-true : (a b : ℤ) → a +ℤ pos 1 ≤ℤ b → ltb_ℤ a b ≡ true
unfolding ◌+ℤ◌
ltb-true a b h = ground arith

pub in_box-true :
    (px py x y width height : ℤ)
    → x ≤ℤ px
    → px +ℤ pos 1 ≤ℤ x +ℤ width
    → y ≤ℤ py
    → py +ℤ pos 1 ≤ℤ y +ℤ height
    → in_box px py x y width height ≡ true
unfolding in_box
in_box-true px py x y width height a b c d = both (leb_ℤ x px) (leb-true x px a) (
    both (ltb_ℤ px (x +ℤ width)) (ltb-true px (x +ℤ width) b)
      (both (leb_ℤ y py) (leb-true y py c) (ltb-true py (y +ℤ height) d)))

pub nonzero : (n : ℕ) → n ≢ 0 → not (n == 0) ≡ true
nonzero n h = ground arith
