-- ===== src/Graphics/Lines/Steps.antt =====
-- One round of the loop that draws a line: what is left to go and what the error then is.
use waffle_os.Common.{
  ℕ, zero, suc, ◌+◌, ◌*◌, ◌≤◌, ◌≡◌, ◌⊎◌, inl, refl, sym, subst, Bool, true, false, if◌then◌else◌, ℤ,
  pos, negsuc, pos_part, neg_part, ltb_ℤ, ◌+ℤ◌, ◌-ℤ◌, ◌≤ℤ◌, int_laws, arith,
}
use native.Mathlib.Nat.{mul-suc}
use waffle_os.Graphics.{LineState, step_x, step_y, line_step, difference, direction}

-- From a to b in at most one unit towards c.
abbrev pub Nears : ℤ → ℤ → ℤ → Type 0
Nears c a b = (a ≡ b) ⊎ (((b ≡ a +ℤ pos 1) × (b ≤ℤ c)) ⊎ ((a ≡ b +ℤ pos 1) × (c ≤ℤ b)))

-- `s` steps towards `b`, which is r units from `a`.
unfoldable pub Ahead : ℤ → ℕ → ℤ → ℤ → Type 0
Ahead s r a b = ((s ≡ pos 1) × (a +ℤ pos r ≡ b)) ⊎ ((s ≡ negsuc 0) × (b +ℤ pos r ≡ a))

pub direction-Ahead : (a b : ℤ) → Ahead (direction a b) (pos_part (difference a b)) a b
unfolding direction difference Ahead ◌+ℤ◌ ◌-ℤ◌
direction-Ahead a b = ground arith

pub difference-pos : (a b : ℤ) → difference a b ≡ pos (pos_part (difference a b))
unfolding difference ◌-ℤ◌
difference-pos a b = ground arith

pub Ahead-zero : (s a b : ℤ) → Ahead s 0 a b → a ≡ b
unfolding Ahead ◌+ℤ◌
Ahead-zero s a b h = ground arith

Ahead-suc : (s a b : ℤ) (r : ℕ) → Ahead s (suc r) a b → Ahead s r (a +ℤ s) b × Nears b a (a +ℤ s)
unfolding Ahead ◌+ℤ◌
Ahead-suc s a b r h = ground arith

-- With rx and ry units left, the error is the one that so many steps leave.
abbrev pub Balanced : ℕ → ℕ → ℕ → ℕ → ℤ → Type 0
Balanced dx dy rx ry err = pos_part err + dy + dx * ry ≡ neg_part err + dx + dy * rx

abbrev pub test_x : ℕ → ℤ → Bool
test_x dy err = ltb_ℤ (pos 0 -ℤ pos dy) (err +ℤ err)

abbrev pub test_y : ℕ → ℤ → Bool
test_y dx err = ltb_ℤ (err +ℤ err) (pos dx)

test_x-left :
    (dx dy rx ry : ℕ) (err : ℤ)
    → ry ≤ dy
    → Balanced dx dy rx ry err
    → test_x dy err ≡ true
    → 1 ≤ rx + ry
    → 1 ≤ rx
unfolding ◌+ℤ◌ ◌-ℤ◌
test_x-left dx dy zero zero err low bal test some_left = omega arith
test_x-left dx dy zero (suc ry) err low bal test some_left = ground arith
test_x-left dx dy (suc rx) ry err low bal test some_left = omega arith

test_y-left :
    (dx dy rx ry : ℕ) (err : ℤ)
    → Balanced dx dy rx ry err
    → test_y dx err ≡ true
    → 1 ≤ rx + ry
    → 1 ≤ ry
unfolding ◌+ℤ◌ ◌-ℤ◌
test_y-left dx dy zero zero err bal test some_left = omega arith
test_y-left dx dy (suc rx) zero err bal test some_left = ground arith
test_y-left dx dy rx (suc ry) err bal test some_left = omega arith

tests-one :
    (dx dy rx ry : ℕ) (err : ℤ)
    → rx ≤ dx
    → ry ≤ dy
    → 1 ≤ rx + ry
    → test_x dy err ≡ false
    → test_y dx err ≡ true
unfolding ◌+ℤ◌ ◌-ℤ◌
tests-one dx dy rx ry err wide tall some_left fails = ground arith

abbrev pub one_less : ℕ → ℕ
one_less zero = zero
one_less (suc r) = r

one_less_lem : (r : ℕ) → 1 ≤ r → suc (one_less r) ≡ r
one_less_lem zero p = elim p [ ]
one_less_lem (suc r) p = refl

abbrev pub after : Bool → ℕ → ℕ
after b r = if b then one_less r else r

module _ (dx dy : ℕ) (sx sy x2 y2 : ℤ) where
  -- rx and ry units are left from the state `s`.
  unfoldable pub Left : ℕ → ℕ → LineState → Type 0
  Left rx ry s =
      Ahead sx rx s.x1 x2 × Ahead sy ry s.y1 y2 × (rx ≤ dx) × (ry ≤ dy) × Balanced dx dy rx ry s.err

  -- A step along one axis, by its test.
  unfoldable pub go_x : Bool → LineState → LineState
  go_x b s = if b then record { x1 = s.x1 +ℤ sx; y1 = s.y1; err = s.err -ℤ pos dy } else s

  unfoldable pub go_y : Bool → LineState → LineState
  go_y b s = if b then record { x1 = s.x1; y1 = s.y1 +ℤ sy; err = s.err +ℤ pos dx } else s

  go_x-Left :
      (b : Bool) (rx ry : ℕ) (s : LineState)
      → (b ≡ true → 1 ≤ rx)
      → Left rx ry s
      → Left (after b rx) ry (go_x b s) × Nears x2 s.x1 (go_x b s).x1 × ((go_x b s).y1 ≡ s.y1)
  unfolding Left go_x
  go_x-Left false rx ry s some_left v = (v, inl refl, refl)
  go_x-Left true zero ry s some_left v = elim (some_left refl) [ ]
  go_x-Left true (suc rx) ry s some_left (ax, ay, wide, tall, bal) =
      let more = mul-suc dy rx in
      let (ax', near) = Ahead-suc sx s.x1 x2 rx ax in
      ((ax', ay, omega arith, tall, omega int_laws), near, refl)

  go_y-Left :
      (b : Bool) (rx ry : ℕ) (s : LineState)
      → (b ≡ true → 1 ≤ ry)
      → Left rx ry s
      → Left rx (after b ry) (go_y b s) × Nears y2 s.y1 (go_y b s).y1 × ((go_y b s).x1 ≡ s.x1)
  unfolding Left go_y
  go_y-Left false rx ry s some_left v = (v, inl refl, refl)
  go_y-Left true rx zero s some_left v = elim (some_left refl) [ ]
  go_y-Left true rx (suc ry) s some_left (ax, ay, wide, tall, bal) =
      let more = mul-suc dx ry in
      let (ay', near) = Ahead-suc sy s.y1 y2 ry ay in
      ((ax, ay', wide, omega arith, omega int_laws), near, refl)

  fewer :
      (bx by : Bool) (rx ry : ℕ)
      → (bx ≡ true → 1 ≤ rx)
      → (by ≡ true → 1 ≤ ry)
      → (bx ≡ false → by ≡ true)
      → suc (after bx rx + after by ry) ≤ rx + ry
  fewer true true rx ry p q r =
      let a = one_less_lem rx (p refl) in let b = one_less_lem ry (q refl) in omega arith
  fewer true false rx ry p q r = let a = one_less_lem rx (p refl) in omega arith
  fewer false true rx ry p q r = let b = one_less_lem ry (q refl) in omega arith
  fewer false false rx ry p q r = let e = r refl in ground arith

  pub step_lem :
      (rx ry : ℕ) (s : LineState)
      → 1 ≤ rx + ry
      → Left rx ry s
      → let s' = line_step (pos dx) (pos dy) sx sy s in
        let rx' = after (test_x dy s.err) rx in
        let ry' = after (test_y dx s.err) ry in
        Left rx' ry' s' × (suc (rx' + ry') ≤ rx + ry) × Nears x2 s.x1 s'.x1 × Nears y2 s.y1 s'.y1
  unfolding line_step step_x step_y Left go_x go_y
  step_lem rx ry s some_left v =
      let bx : Bool = test_x dy s.err in
      let by : Bool = test_y dx s.err in
      let (_, _, wide, tall, bal) = v in
      let left_x : bx ≡ true → 1 ≤ rx = λ t. test_x-left dx dy rx ry s.err tall bal t some_left in
      let left_y : by ≡ true → 1 ≤ ry = λ t. test_y-left dx dy rx ry s.err bal t some_left in
      let (v', near_x, same_y) = go_x-Left bx rx ry s left_x v in
      let (v'', near_y, same_x) = go_y-Left by (after bx rx) ry (go_x bx s) left_y v' in
      (
        v'',
        fewer bx by rx ry left_x left_y (tests-one dx dy rx ry s.err wide tall some_left),
        subst (Nears x2 s.x1) (sym same_x) near_x,
        subst (λ y. Nears y2 y (go_y by (go_x bx s)).y1) same_y near_y,
      )
