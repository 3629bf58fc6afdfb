-- ===== src/Screen/Scrolling.antt =====
-- `scrollback` of source/kernel/core/stdio.c moves the rows up.
use waffle_os.Common.{
  ℕ, zero, suc, ◌+◌, ◌-◌, ◌*◌, ◌%◌, ◌≤◌, ◌<◌, ◌≡◌, arith, ltb, leb, ◌==◌, ◌&&◌, if◌then◌else◌,
  fun_ext, ◌∙◌,
}
use waffle_os.Memory.Bytes.{Mem8, write}
use waffle_os.Memory.Bytes.Copy.{moved, moved_none, chunk_up}
use waffle_os.Screen.{
  Screen, screen_buffer, cell, putchr, putcolor, getchr, getcolor, copy_row, copy_rows, clear_row,
  clear_rows, clrscr, scrollback,
}

-- The cell (x, y) is copied to the row that is `lines` higher.
abbrev copied_cell : ℕ → ℕ → ℕ → Mem8 → Mem8
copied_cell lines x y m =
    let m' = putchr x (y - lines) (getchr x y m) m in putcolor x (y - lines) (getcolor x y m') m'

copied_cell-moved :
    (lines x y : ℕ) (m : Mem8)
    → 0 < lines
    → lines ≤ y
    → copied_cell lines x y m ≡ moved (cell x (y - lines)) (cell x y) 2 m
unfolding putchr putcolor write
copied_cell-moved lines x y m pos le = fun_ext (λ a. ground arith)

copy_row-moved :
    (n lines x y : ℕ) (m : Mem8)
    → 0 < lines
    → lines ≤ y
    → copy_row n lines x y m ≡ moved (cell x (y - lines)) (cell x y) (2 * n) m
unfolding copy_row
copy_row-moved zero lines x y m pos le = moved_none (cell x (y - lines)) (cell x y) m
copy_row-moved (suc n) lines x y m pos le =
    let dst : cell (x + 1) (y - lines) ≡ cell x (y - lines) + 2 = omega arith in
    let src : cell (x + 1) y ≡ cell x y + 2 = omega arith in
    copy_row-moved n lines (x + 1) y (copied_cell lines x y m) pos le
    ∙ rw (dst, src, copied_cell-moved lines x y m pos le)
        (chunk_up (cell x (y - lines)) (cell x y) 2 (2 * n) (2 * suc n) m (omega arith)
          (omega arith))

copy_rows-moved :
    (n lines y : ℕ) (m : Mem8)
    → 0 < lines
    → lines ≤ y
    → copy_rows n lines y m ≡ moved (cell 0 (y - lines)) (cell 0 y) (160 * n) m
unfolding copy_rows
copy_rows-moved zero lines y m pos le = moved_none (cell 0 (y - lines)) (cell 0 y) m
copy_rows-moved (suc n) lines y m pos le =
    let dst : cell 0 (y + 1 - lines) ≡ cell 0 (y - lines) + 160 = omega arith in
    let src : cell 0 (y + 1) ≡ cell 0 y + 160 = omega arith in
    copy_rows-moved n lines (y + 1) (copy_row 80 lines 0 y m) pos (omega arith)
    ∙ rw (dst, src, copy_row-moved 80 lines 0 y m pos le)
        (chunk_up (cell 0 (y - lines)) (cell 0 y) 160 (160 * n) (160 * suc n) m (omega arith)
          (omega arith))

-- Blank cells: the character 0 in the default colour, from the even address `start` on.
abbrev pub blanked : ℕ → ℕ → Mem8 → Mem8
blanked start n m a =
    if leb start a && ltb a (start + 2 * n) then (if a % 2 == 0 then 0 else 7) else m a

blank_cell : (x y : ℕ) (m : Mem8) → putcolor x y 7 (putchr x y 0 m) ≡ blanked (cell x y) 1 m
unfolding putchr putcolor write
blank_cell x y m = fun_ext (λ a. ground arith)

blanked-blanked :
    (start n k l : ℕ) (m : Mem8)
    → n + k ≡ l
    → blanked (start + 2 * n) k (blanked start n m) ≡ blanked start l m
blanked-blanked start n k l m e = rw (← e) (fun_ext (λ a. ground arith))

blanked_none : (start : ℕ) (m : Mem8) → m ≡ blanked start 0 m
blanked_none start m = fun_ext (λ a. ground arith)

clear_row-blanked : (n x y : ℕ) (m : Mem8) → clear_row n x y m ≡ blanked (cell x y) n m
unfolding clear_row
clear_row-blanked zero x y m = blanked_none (cell x y) m
clear_row-blanked (suc n) x y m =
    let next : cell (x + 1) y ≡ cell x y + 2 * 1 = omega arith in
    clear_row-blanked n (x + 1) y (putcolor x y 7 (putchr x y 0 m))
    ∙ rw (next, blank_cell x y m) (blanked-blanked (cell x y) 1 n (suc n) m (omega arith))

clear_rows-blanked : (n y : ℕ) (m : Mem8) → clear_rows n y m ≡ blanked (cell 0 y) (80 * n) m
unfolding clear_rows
clear_rows-blanked zero y m = blanked_none (cell 0 y) m
clear_rows-blanked (suc n) y m =
    let next : cell 0 (y + 1) ≡ cell 0 y + 2 * 80 = omega arith in
    clear_rows-blanked n (y + 1) (clear_row 80 0 y m)
    ∙ rw (next, clear_row-blanked 80 0 y m)
        (blanked-blanked (cell 0 y) 80 (80 * n) (80 * suc n) m (omega arith))

-- The screen after a scroll by `lines` rows.
abbrev pub scrolled : ℕ → Mem8 → Mem8
scrolled lines m a =
    if leb screen_buffer a && ltb a (screen_buffer + 160 * (25 - lines))
    then m (a + 160 * lines)
    else if leb screen_buffer a && ltb a (screen_buffer + 4000)
    then (if a % 2 == 0 then 0 else 7)
    else m a

-- `scrollback` by up to 25 rows moves the rows up, characters and colours, and blanks the rows
-- that come free at the bottom in the default colour. No byte outside the screen changes.
scrollback-scrolled :
    (lines : ℕ) (s : Screen)
    → 0 < lines
    → lines ≤ 25
    → (scrollback lines s).bytes ≡ scrolled lines s.bytes
unfolding scrollback
scrollback-scrolled lines s pos le =
    clear_rows-blanked lines (25 - lines) (copy_rows (25 - lines) lines lines s.bytes)
    ∙ rw (copy_rows-moved (25 - lines) lines lines s.bytes pos (omega arith))
        (fun_ext (λ a. ground arith))

-- `clrscr` blanks the 25 rows and nothing else.
pub clrscr-blanked : (s : Screen) → (clrscr s).bytes ≡ blanked screen_buffer 2000 s.bytes
unfolding clrscr
clrscr-blanked s = clear_rows-blanked 25 0 s.bytes
