-- ===== src/Screen/Cursor.antt =====
-- Where `putc` of source/kernel/core/stdio.c leaves the cursor.
use waffle_os.Common.{
  ℕ, zero, suc, ◌+◌, ◌-◌, ◌%◌, ◌≤◌, ◌<◌, ◌≡◌, ◌≢◌, refl, arith, ltb, if◌then◌else◌, List, [], ◌∷◌,
}
use waffle_os.Screen.{
  Screen, putchr, wrap, settle, put_plain, put_tab, put_backspace, putc, puts, scrollback,
}

-- The cursor is on the screen.
pub record IsOn (s : Screen) : Type 0 where
  pub column : s.screen_x < 80
  pub row : s.screen_y < 25

settle-IsOn : (s : Screen) → s.screen_x ≤ 80 → s.screen_y < 25 → IsOn (settle s)
unfolding settle wrap scrollback
settle-IsOn s column row = ground arith

next_row-IsOn : (s : Screen) → s.screen_x ≡ 0 → s.screen_y ≤ 25 → IsOn (settle s)
unfolding settle wrap scrollback
next_row-IsOn s column row = ground arith

put_plain-IsOn : (c : ℕ) (s : Screen) → IsOn s → IsOn (put_plain c s)
unfolding put_plain
put_plain-IsOn c s v =
    let column = v.column in
    settle-IsOn
      (record {
        bytes = putchr s.screen_x s.screen_y c s.bytes;
        screen_x = s.screen_x + 1;
        screen_y = s.screen_y;
      })
      (omega arith) v.row

put_tab-IsOn : (fuel i : ℕ) (s : Screen) → IsOn s → IsOn (put_tab fuel i s)
unfolding put_tab
put_tab-IsOn zero i s v = v
put_tab-IsOn (suc fuel) i s v =
    ground (arith, put_tab-IsOn fuel (i + 1) (put_plain b' ' s) (put_plain-IsOn b' ' s v))

put_backspace-IsOn : (s : Screen) → IsOn s → IsOn (put_backspace s)
unfolding put_backspace
put_backspace-IsOn s v = ground arith

-- `putc` keeps the cursor on the screen, for every character: `puts` never writes outside it.
putc-IsOn : (c : ℕ) (s : Screen) → IsOn s → IsOn (putc c s)
unfolding putc
putc-IsOn c s v =
    let column = v.column in
    let row = v.row in
    ground (
      arith,
      next_row-IsOn (record s { screen_x = 0; screen_y = s.screen_y + 1 }),
      put_tab-IsOn 4 0 s v,
      settle-IsOn (put_tab 4 0 s),
      settle-IsOn (record s { screen_x = 0 }),
      put_backspace-IsOn s v,
      settle-IsOn (put_backspace s),
      put_plain-IsOn c s v,
    )

-- Whatever text is printed, the cursor stays on the screen of 80 by 25: in every row and column
-- that a character is written to, there is a cell.
pub puts-IsOn : (cs : List ℕ) (s : Screen) → IsOn s → IsOn (puts cs s)
unfolding puts
puts-IsOn [] s v = v
puts-IsOn (c ∷ cs) s v = puts-IsOn cs (putc c s) (putc-IsOn c s v)

put_plain_inside :
    (c : ℕ) (s : Screen)
    → s.screen_x + 1 < 80
    → s.screen_y < 25
    → (put_plain c s).screen_x ≡ s.screen_x + 1
unfolding put_plain settle wrap
put_plain_inside c s column row = ground arith

put_plain_row :
    (c : ℕ) (s : Screen)
    → s.screen_x + 1 < 80
    → s.screen_y < 25
    → (put_plain c s).screen_y ≡ s.screen_y
unfolding put_plain settle wrap
put_plain_row c s column row = ground arith

-- The column alone, in the loop for a tab.
abbrev tab_column : ℕ → ℕ → ℕ → ℕ
tab_column zero i x = x
tab_column (suc fuel) i x = if ltb i (4 - x % 4) then tab_column fuel (i + 1) (x + 1) else x

put_tab-column :
    (fuel i : ℕ) (s : Screen)
    → s.screen_x + fuel < 80
    → s.screen_y < 25
    → ((put_tab fuel i s).screen_x ≡ tab_column fuel i s.screen_x)
      × ((put_tab fuel i s).screen_y ≡ s.screen_y)
unfolding put_tab
put_tab-column zero i s column row = (refl, refl)
put_tab-column (suc fuel) i s column row =
    let x = put_plain_inside b' ' s (omega arith) row in
    let y = put_plain_row b' ' s (omega arith) row in
    let (x', y') = put_tab-column fuel (i + 1) (put_plain b' ' s) (omega arith) (omega arith) in
    ground (arith, x, y, x', y')

tab_column-aligned : (x : ℕ) → tab_column 4 0 x % 4 ≢ 0
tab_column-aligned x = ground arith

tab_column-le : (x : ℕ) → tab_column 4 0 x ≤ x + 4
tab_column-le x = ground arith

settle_inside : (s : Screen) → s.screen_x < 80 → s.screen_y < 25 → (settle s).screen_x ≡ s.screen_x
unfolding settle wrap
settle_inside s column row = ground arith

-- The loop for a tab tests the column that it moves: away from the right edge, a tab never ends
-- at a multiple of four.
putc_tab : (s : Screen) → s.screen_x + 4 < 80 → s.screen_y < 25 → (putc 9 s).screen_x % 4 ≢ 0
unfolding putc
putc_tab s column row =
    let (x, y) = put_tab-column 4 0 s column row in
    let le = tab_column-le s.screen_x in
    let same = settle_inside (put_tab 4 0 s) (omega arith) (omega arith) in
    rw (same, x) (tab_column-aligned s.screen_x)
