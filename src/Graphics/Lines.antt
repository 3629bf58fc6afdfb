-- ===== src/Graphics/Lines.antt =====
-- The line of `ctx_draw_line` in libs/ui/graphics_context.c and `draw_line` in drivers/display.c.
pub mod Steps
use waffle_os.Common.{
  ℕ, zero, suc, ◌+◌, ◌*◌, ◌≤◌, ◌≡◌, ◌⊎◌, inl, inr, refl, sym, ap, subst, ◌∙◌, Bool, true, false,
  ◌&&◌, List, [], ◌∷◌, Option, none, some, ◌==◌, if◌then◌else◌, length, ℤ, pos, negsuc, pos_part,
  neg_part, ltb_ℤ, eqb_ℤ, ◌+ℤ◌, ◌-ℤ◌, ◌≤ℤ◌, int_laws, arith, Bool-cases,
}
use native.Mathlib.Nat.{mul-suc}
use waffle_os.Graphics.{
  LineState, step_x, step_y, line_step, line_loop, difference, direction, draw_line,
}
use waffle_os.Graphics.Lines.Steps.{
  Nears, Ahead, direction-Ahead, difference-pos, Balanced, test_x, test_y, after, Left, step_lem,
}

-- A path of pixels to (x2, y2).
pub data LinePath (x2 y2 : ℤ) : ℤ → ℤ → List (ℤ × ℤ) → Type 0 where
  arrived : LinePath x2 y2 x2 y2 ((x2, y2) ∷ [])
  moved :
      {x y x' y' : ℤ} {path : List (ℤ × ℤ)}
      → Nears x2 x x'
      → Nears y2 y y'
      → LinePath x2 y2 x' y' path
      → LinePath x2 y2 x y ((x, y) ∷ path)

-- The pixels of a path drawn one after another.
unfoldable pub paint {ℓ} : {A : Type ℓ} → (ℤ → ℤ → A → A) → List (ℤ × ℤ) → A → A
paint put [] a = a
paint put ((x, y) ∷ path) a = paint put path (put x y a)

module _ (dx dy : ℕ) (sx sy x2 y2 : ℤ) where
  at_end : LineState → Bool
  at_end s = eqb_ℤ s.x1 x2 && eqb_ℤ s.y1 y2

  at_end-Path : (s : LineState) → at_end s ≡ true → LinePath x2 y2 s.x1 s.y1 ((s.x1, s.y1) ∷ [])
  unfolding at_end
  at_end-Path s there =
      let same_x : x2 ≡ s.x1 = grind int_laws in
      let same_y : y2 ≡ s.y1 = grind int_laws in
      subst (λ x. LinePath x2 y2 x s.y1 ((x, s.y1) ∷ [])) same_x
        (subst (λ y. LinePath x2 y2 x2 y ((x2, y) ∷ [])) same_y arrived)

  not_at_end-Left :
      (rx ry : ℕ) (s : LineState) → at_end s ≡ false → Left dx dy sx sy x2 y2 rx ry s → 1 ≤ rx + ry
  unfolding at_end Left Ahead ◌+ℤ◌
  not_at_end-Left (suc rx) ry s away v = omega arith
  not_at_end-Left zero (suc ry) s away v = omega arith
  not_at_end-Left zero zero s away (ax, ay, _, _, _) = ground arith

  module _ {ℓ} {A : Type ℓ} (put : ℤ → ℤ → A → A) where
    abbrev loop : ℕ → LineState → A → Option A
    loop = line_loop (pos dx) (pos dy) sx sy put x2 y2

    loop-end :
        (fuel : ℕ) (s : LineState) (a : A)
        → at_end s ≡ true
        → loop (suc fuel) s a ≡ some (put s.x1 s.y1 a)
    unfolding line_loop at_end
    loop-end fuel s a there = ground arith

    loop-step :
        (fuel : ℕ) (s : LineState) (a : A)
        → at_end s ≡ false
        → loop (suc fuel) s a ≡ loop fuel (line_step (pos dx) (pos dy) sx sy s) (put s.x1 s.y1 a)
    unfolding line_loop at_end
    loop-step fuel s a away = ground arith

    abbrev Drawn : ℕ → LineState → A → ℕ → Type ℓ
    Drawn fuel s a longest =
        (path : List (ℤ × ℤ)) × (loop fuel s a ≡ some (paint put path a))
        × LinePath x2 y2 s.x1 s.y1 path
        × (length path ≤ longest)

    stopped :
        (fuel longest : ℕ) (s : LineState) (a : A)
        → at_end s ≡ true
        → Drawn (suc fuel) s a (suc longest)
    unfolding paint
    stopped fuel longest s a there =
        ((s.x1, s.y1) ∷ [], loop-end fuel s a there, at_end-Path s there, omega arith)

    loop_lem :
        (fuel rx ry : ℕ) (s : LineState) (a : A)
        → rx + ry ≤ fuel
        → Left dx dy sx sy x2 y2 rx ry s
        → Drawn (suc fuel) s a (suc (rx + ry))
    unfolding paint
    loop_lem zero rx ry s a enough v = elim (Bool-cases (at_end s)) [
      | inl there ↦ stopped zero (rx + ry) s a there
      | inr away ↦
          let some_left = not_at_end-Left rx ry s away v in
          let bad : 1 ≤ 0 = omega arith in elim bad [ ]
    ]
    loop_lem (suc fuel) rx ry s a enough v = elim (Bool-cases (at_end s)) [
      | inl there ↦ stopped (suc fuel) (rx + ry) s a there
      | inr away ↦
          let (v', less, near_x, near_y) =
            step_lem dx dy sx sy x2 y2 rx ry s (not_at_end-Left rx ry s away v) v in
          let (path, goes, line, short) =
            loop_lem fuel (after (test_x dy s.err) rx) (after (test_y dx s.err) ry)
              (line_step (pos dx) (pos dy) sx sy s) (put s.x1 s.y1 a) (omega arith) v' in
          (
            (s.x1, s.y1) ∷ path,
            loop-step (suc fuel) s a away ∙ goes,
            moved near_x near_y line,
            omega arith,
          )
    ]

lengths {ℓ} :
    {A : Type ℓ} (put : ℤ → ℤ → A → A) (sx sy x2 y2 : ℤ) (fuel : ℕ) (x1 y1 : ℤ) (a : A) {w h : ℤ}
    {dx dy : ℕ}
    → w ≡ pos dx
    → h ≡ pos dy
    → line_loop w h sx sy put x2 y2 fuel (record { x1 = x1; y1 = y1; err = w -ℤ h }) a
      ≡ line_loop
          (pos dx)
          (pos dy)
          sx
          sy
          put
          x2
          y2
          fuel
          (record { x1 = x1; y1 = y1; err = pos dx -ℤ pos dy })
          a
lengths put sx sy x2 y2 fuel x1 y1 a p q = rw (p, q)

-- Drawing a line always ends, for both `ctx_draw_line` and `draw_line`: whatever routine puts the
-- pixels, it puts them along a path from (x1, y1) to (x2, y2) that moves by at most one pixel in
-- each coordinate at a time, only towards the end and never past it, and has at most
-- |x1 - x2| + |y1 - y2| + 1 pixels.
pub draw_line-LinePath {ℓ} :
    {A : Type ℓ} (put : ℤ → ℤ → A → A) (x1 y1 x2 y2 : ℤ) (a : A)
    → (path : List (ℤ × ℤ)) × (draw_line put x1 y1 x2 y2 a ≡ some (paint put path a))
      × LinePath x2 y2 x1 y1 path
      × (length path ≤ suc (pos_part (difference x1 x2) + pos_part (difference y1 y2)))
unfolding draw_line Left
draw_line-LinePath put x1 y1 x2 y2 a =
    let dx = pos_part (difference x1 x2) in
    let dy = pos_part (difference y1 y2) in
    let wide = difference-pos x1 x2 in
    let tall = difference-pos y1 y2 in
    let direction_x = direction x1 x2 in
    let direction_y = direction y1 y2 in
    let bal : Balanced dx dy dx dy (pos dx -ℤ pos dy) = grind int_laws in
    let s : LineState = record { x1 = x1; y1 = y1; err = pos dx -ℤ pos dy } in
    let (path, goes, line, short) =
      loop_lem dx dy direction_x direction_y x2 y2 put (dx + dy) dx dy s a (omega arith)
        (direction-Ahead x1 x2, direction-Ahead y1 y2, omega arith, omega arith, bal) in
    (
      path,
      lengths put direction_x direction_y x2 y2 (suc (dx + dy)) x1 y1 a wide tall ∙ goes,
      line,
      short,
    )
