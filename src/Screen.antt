-- ===== src/Screen.antt =====
-- The text screen of source/kernel/core/stdio.c: the character and colour bytes from
-- `g_ScreenBuffer` on, and the cursor. `setcursor` sends the cursor to the ports and is left out.
pub mod Scrolling
pub mod Cursor
mod Tests
use waffle_os.Common.{
  ℕ, zero, suc, ◌+◌, ◌-◌, ◌*◌, ◌%◌, List, [], ◌∷◌, ltb, leb, ◌==◌, if◌then◌else◌,
}
use waffle_os.Memory.Bytes.{Mem8, write}

-- `SCREEN_WIDTH`, `SCREEN_HEIGHT`, `DEFAULT_COLOR` and `g_ScreenBuffer`
abbrev pub screen_width : ℕ
screen_width = 80

abbrev pub screen_height : ℕ
screen_height = 25

abbrev pub default_color : ℕ
default_color = 7

abbrev pub screen_buffer : ℕ
screen_buffer = 0xB8000

pub record Screen : Type 0 where
  pub bytes : Mem8
  pub screen_x : ℕ
  pub screen_y : ℕ

-- The address of a cell: its character, and its colour behind it.
abbrev pub cell : ℕ → ℕ → ℕ
cell x y = screen_buffer + 2 * (y * screen_width + x)

unfoldable pub putchr : ℕ → ℕ → ℕ → Mem8 → Mem8
unfolding write
putchr x y c m = write m (cell x y) c

unfoldable pub putcolor : ℕ → ℕ → ℕ → Mem8 → Mem8
unfolding write
putcolor x y color m = write m (cell x y + 1) color

abbrev pub getchr : ℕ → ℕ → Mem8 → ℕ
getchr x y m = m (cell x y)

abbrev pub getcolor : ℕ → ℕ → Mem8 → ℕ
getcolor x y m = m (cell x y + 1)

-- `for (x...)` in the first loop of `scrollback`, with the rounds that are left.
unfoldable pub copy_row : ℕ → ℕ → ℕ → ℕ → Mem8 → Mem8
unfolding putchr putcolor
copy_row zero lines x y m = m
copy_row (suc n) lines x y m =
    let m' = putchr x (y - lines) (getchr x y m) m in
    copy_row n lines (x + 1) y (putcolor x (y - lines) (getcolor x y m') m')

unfoldable pub copy_rows : ℕ → ℕ → ℕ → Mem8 → Mem8
unfolding copy_row
copy_rows zero lines y m = m
copy_rows (suc n) lines y m = copy_rows n lines (y + 1) (copy_row screen_width lines 0 y m)

-- The inner loop of `clrscr` and of the second part of `scrollback`.
unfoldable pub clear_row : ℕ → ℕ → ℕ → Mem8 → Mem8
unfolding putchr putcolor
clear_row zero x y m = m
clear_row (suc n) x y m = clear_row n (x + 1) y (putcolor x y default_color (putchr x y 0 m))

unfoldable pub clear_rows : ℕ → ℕ → Mem8 → Mem8
unfolding clear_row
clear_rows zero y m = m
clear_rows (suc n) y m = clear_rows n (y + 1) (clear_row screen_width 0 y m)

unfoldable pub clrscr : Screen → Screen
unfolding clear_rows
clrscr s = record { bytes = clear_rows screen_height 0 s.bytes; screen_x = 0; screen_y = 0 }

unfoldable pub scrollback : ℕ → Screen → Screen
unfolding copy_rows clear_rows
scrollback lines s = record s {
  bytes =
      clear_rows lines (screen_height - lines)
        (copy_rows (screen_height - lines) lines lines s.bytes);
  screen_y = s.screen_y - lines;
}

-- The end of `putc`: the next row behind the last column, and the scrolling.
unfoldable pub wrap : Screen → Screen
wrap s =
    if leb screen_width s.screen_x then record s { screen_x = 0; screen_y = s.screen_y + 1 } else s

unfoldable pub settle : Screen → Screen
unfolding wrap scrollback
settle s = let s' = wrap s in if leb screen_height s'.screen_y then scrollback 1 s' else s'

-- `default`
unfoldable pub put_plain : ℕ → Screen → Screen
unfolding settle putchr
put_plain c s =
    settle (record s { bytes = putchr s.screen_x s.screen_y c s.bytes; screen_x = s.screen_x + 1 })

-- `for (int i = 0; i < 4 - (g_ScreenX % 4); i++) putc(' ');`. There are at most four rounds.
unfoldable pub put_tab : ℕ → ℕ → Screen → Screen
unfolding put_plain
put_tab zero i s = s
put_tab (suc fuel) i s =
    let rest = put_tab fuel (i + 1) (put_plain b' ' s) in
    if ltb i (4 - s.screen_x % 4) then rest else s

unfoldable pub put_backspace : Screen → Screen
unfolding putchr
put_backspace s =
    if ltb 0 s.screen_x
    then record s {
      screen_x = s.screen_x - 1;
      bytes = putchr (s.screen_x - 1) s.screen_y b' ' s.bytes;
    }
    else s

unfoldable pub putc : ℕ → Screen → Screen
unfolding put_tab put_backspace put_plain settle
putc c s =
    if c == 10
    then settle (record s { screen_x = 0; screen_y = s.screen_y + 1 })
    else if c == 9
    then settle (put_tab 4 0 s)
    else if c == 13
    then settle (record s { screen_x = 0 })
    else if c == 8
    then settle (put_backspace s)
    else put_plain c s

unfoldable pub puts : List ℕ → Screen → Screen
unfolding putc
puts [] s = s
puts (c ∷ cs) s = puts cs (putc c s)
