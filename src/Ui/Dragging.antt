-- ===== src/Ui/Dragging.antt =====
-- A window that is dragged over several frames: `update_drag` of libs/ui/events.c.
use waffle_os.Common.{
  ℕ, zero, suc, ◌≡◌, ◌≢◌, ◌⊎◌, ◌∙◌, ap, sym, subst, refl, fun_ext, inl, inr, Bool, true, false,
  List, [], ◌∷◌, ◌++◌, ◌==◌, if◌then◌else◌, get_or, ℤ, ◌+ℤ◌, ◌-ℤ◌, arith, Bool-cases, int_laws,
  ==_refl,
}
use waffle_os.Ui.{Window, Ui, set_window}
use waffle_os.Mouse.{MouseState}
use waffle_os.Ui.Events.{Drag, left_pressed, on_title_bar, begin_drag, drag_to, update_drag}

-- The frames one after another.
unfoldable pub run_frames : List MouseState → Drag × Ui → Drag × Ui
run_frames [] s = s
run_frames (mouse ∷ frames) s = run_frames frames (update_drag mouse s)

-- The left button is held in every frame.
unfoldable pub Held : List MouseState → Type 0
Held [] = Unit
Held (mouse ∷ frames) = (left_pressed mouse ≡ true) × Held frames

-- The window at the pointer's distance.
abbrev pub moved_to : ℤ → ℤ → Window → Window
moved_to x y w = record w { x = x; y = y }

update_drag-drag_to :
    (mouse : MouseState) (d : Drag) (ui : Ui)
    → left_pressed mouse ≡ true
    → d.dragged_window ≢ 0
    → update_drag mouse (d, ui) ≡ (d, drag_to mouse d ui)
unfolding update_drag
update_drag-drag_to mouse d ui held some_window = ground arith

update_drag-release :
    (mouse : MouseState) (d : Drag) (ui : Ui)
    → left_pressed mouse ≡ false
    → update_drag mouse (d, ui) ≡ (record d { dragged_window = 0 }, ui)
unfolding update_drag
update_drag-release mouse d ui up = ground arith

if_twice {ℓ} :
    {A : Type ℓ} (b : Bool) (x y z : A)
    → (if b then y else if b then x else z) ≡ (if b then y else z)
if_twice true x y z = refl
if_twice false x y z = refl

set_again :
    (ui : Ui) (p : ℕ) (v v' : Window) → set_window (set_window ui p v) p v' ≡ set_window ui p v'
set_again ui p v v' =
    ap (λ f. record ui { window_at = f }) (fun_ext (λ q. if_twice (q == p) v v' (ui.window_at q)))

drag_to-again :
    (m m' : MouseState) (d : Drag) (ui : Ui) → drag_to m' d (drag_to m d ui) ≡ drag_to m' d ui
unfolding drag_to
drag_to-again m m' d ui =
    let p : ℕ = d.dragged_window in
    let v : Window = moved_to (m.x -ℤ d.drag_offset_x) (m.y -ℤ d.drag_offset_y) (ui.window_at p) in
    let go : Window → Window = moved_to (m'.x -ℤ d.drag_offset_x) (m'.y -ℤ d.drag_offset_y) in
    ap (λ b. set_window (set_window ui p v) p (go (if b then v else ui.window_at p))) (==_refl p)
    ∙ set_again ui p v (go v)

-- Only the last position counts.
run_frames-last :
    (frames : List MouseState) (mouse : MouseState) (d : Drag) (ui : Ui)
    → Held frames
    → left_pressed mouse ≡ true
    → d.dragged_window ≢ 0
    → run_frames (frames ++ mouse ∷ []) (d, ui) ≡ (d, drag_to mouse d ui)
unfolding run_frames Held
run_frames-last [] mouse d ui held last some_window =
    update_drag-drag_to mouse d ui last some_window
run_frames-last (m ∷ frames) mouse d ui (first, held) last some_window =
    ap (run_frames (frames ++ mouse ∷ [])) (update_drag-drag_to m d ui first some_window)
    ∙ run_frames-last frames mouse d (drag_to m d ui) held last some_window
    ∙ ap (λ u. (d, u)) (drag_to-again m mouse d ui)

abbrev grip : MouseState → Ui → ℕ → Drag
grip mouse ui win = record {
  dragged_window = win;
  drag_offset_x = mouse.x -ℤ (ui.window_at win).x;
  drag_offset_y = mouse.y -ℤ (ui.window_at win).y;
}

-- How a drag begins.
begin_drag-cases :
    (mouse : MouseState) (ui : Ui) (i : ℕ) (d : Drag)
    → (begin_drag mouse ui i d ≡ d)
      ⊎ ((win : ℕ) × (on_title_bar mouse ui win ≡ true)
          × (begin_drag mouse ui i d ≡ grip mouse ui win))
unfolding begin_drag
begin_drag-cases mouse ui zero d = inl refl
begin_drag-cases mouse ui (suc i) d =
    let win = get_or ui.table.slots i 0 in
    let choose : Bool → Drag =
      λ b. elim b as (λ _. Drag) [ true ↦ grip mouse ui win | false ↦ begin_drag mouse ui i d ] in
    elim (Bool-cases (on_title_bar mouse ui win)) [
      | inl on ↦ inr (win, on, ap choose on)
      | inr off ↦ elim (begin_drag-cases mouse ui i d) [
        | inl none_found ↦ inl (ap choose off ∙ none_found)
        | inr (win', on, e) ↦ inr (win', on, ap choose off ∙ e)
      ]
    ]

update_drag-begin :
    (mouse : MouseState) (d : Drag) (ui : Ui)
    → left_pressed mouse ≡ true
    → d.dragged_window ≡ 0
    → update_drag mouse (d, ui) ≡ (begin_drag mouse ui ui.table.window_count d, ui)
unfolding update_drag
update_drag-begin mouse d ui held free = ground arith

carried : (a b c : ℤ) → a -ℤ (b -ℤ c) ≡ c +ℤ (a -ℤ b)
carried a b c = grind int_laws

-- The window moved by what the pointer moved.
abbrev pub carried_window : MouseState → MouseState → Ui → ℕ → Ui
carried_window first last ui win =
    let w : Window = ui.window_at win in
    set_window ui win (moved_to (w.x +ℤ (last.x -ℤ first.x)) (w.y +ℤ (last.y -ℤ first.y)) w)

drag_to-grip :
    (first last : MouseState) (ui : Ui) (win : ℕ)
    → drag_to last (grip first ui win) ui ≡ carried_window first last ui win
unfolding drag_to
drag_to-grip first last ui win =
    let w : Window = ui.window_at win in
    ap (λ x. set_window ui win (moved_to x (last.y -ℤ (first.y -ℤ w.y)) w))
      (carried last.x first.x w.x)
    ∙ ap (λ y. set_window ui win (moved_to (w.x +ℤ (last.x -ℤ first.x)) y w))
        (carried last.y first.y w.y)

follows :
    (first : MouseState) (frames : List MouseState) (last : MouseState) (d : Drag) (ui : Ui)
    (win : ℕ)
    → Held frames
    → left_pressed last ≡ true
    → win ≢ 0
    → update_drag first (d, ui) ≡ (grip first ui win, ui)
    → run_frames (first ∷ frames ++ last ∷ []) (d, ui)
      ≡ (grip first ui win, carried_window first last ui win)
unfolding run_frames
follows first frames last d ui win held still_down some_window gripped =
    ap (run_frames (frames ++ last ∷ [])) gripped
    ∙ run_frames-last frames last (grip first ui win) ui held still_down some_window
    ∙ ap (λ u. (grip first ui win, u)) (drag_to-grip first last ui win)

-- From the frame in which a drag begins, a window follows the pointer: after any number of frames in
-- which the left button stays down, it stands where it stood, moved by what the pointer moved since
-- that first frame. Its other fields, the other windows and the table are as they were, and the
-- pointer was on its title bar when the drag began.
pub drag-follows :
    (first : MouseState) (frames : List MouseState) (last : MouseState) (d : Drag) (ui : Ui)
    (win : ℕ)
    → d.dragged_window ≡ 0
    → left_pressed first ≡ true
    → Held frames
    → left_pressed last ≡ true
    → (update_drag first (d, ui)).0.dragged_window ≡ win
    → win ≢ 0
    → (on_title_bar first ui win ≡ true)
      × ((run_frames (first ∷ frames ++ last ∷ []) (d, ui)).1 ≡ carried_window first last ui win)
drag-follows first frames last d ui win free down held still_down grabbed some_window =
    let begins = update_drag-begin first d ui down free in
    elim (begin_drag-cases first ui ui.table.window_count d) [
      | inl same ↦
          let nothing : win ≡ 0 =
            sym grabbed
            ∙ ap (λ s. s.0.dragged_window) begins
            ∙ ap (λ b. b.dragged_window) same
            ∙ free in
          elim (some_window nothing) [ ]
      | inr (win', on, e) ↦
          let gripped = begins ∙ ap (λ b. (b, ui)) e in
          let it : win' ≡ win = sym (ap (λ s. s.0.dragged_window) gripped) ∙ grabbed in
          let some_window' : win' ≢ 0 = λ z. some_window (sym it ∙ z) in
          subst
            (λ w.
              (on_title_bar first ui w ≡ true)
              × ((run_frames (first ∷ frames ++ last ∷ []) (d, ui)).1
                  ≡ carried_window first last ui w))
            it
            (
              on,
              ap (λ s. s.1)
                  (follows first frames last d ui win' held still_down some_window' gripped),
            )
    ]
