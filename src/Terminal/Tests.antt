-- ===== src/Terminal/Tests.antt =====
-- Text and keys in the terminal.
use waffle_os.Common.{
  ℕ, ◌≡◌, refl, true, none, some, List, [], ◌∷◌, ltb, if◌then◌else◌, length, drop, min, replicate,
  codes, arith,
}
use waffle_os.Terminal.{
  Terminal, wrap_text, count_lines, update_visible_offset, terminal_handle_key,
}
use waffle_os.Terminal.Text.{lines_within, wrap_text-lines_within}
use waffle_os.Terminal.Scrolling.{update_visible_offset-count_lines}
use waffle_os.Terminal.Typing.{IsEcho, typed_keys}
use waffle_os.Terminal.Entering.{handle_keys, entered, enter-typed_keys}

wrap_text-lines_within_example : lines_within 4 0 (wrap_text (codes "abcdefghij") 2047 4 0) ≡ true
wrap_text-lines_within_example = wrap_text-lines_within (codes "abcdefghij") 2047 4 0 (omega arith)

abbrev four_lines : List ℕ
four_lines = 97 ∷ 10 ∷ 98 ∷ 10 ∷ 99 ∷ 10 ∷ 100 ∷ []

-- With room for two lines the last one, which has no newline yet, is a third one.
offset : update_visible_offset four_lines 2 ≡ 2
unfolding update_visible_offset
offset = refl

update_visible_offset-count_lines_example :
    count_lines (drop (update_visible_offset four_lines 2) four_lines)
    ≡ min (count_lines four_lines) 2
update_visible_offset-count_lines_example = update_visible_offset-count_lines four_lines 2

abbrev silent : List ℕ → List ℕ → List ℕ
silent line buffer = buffer

abbrev prompt : Terminal
prompt = record { buffer = codes "root $ "; input_line = replicate 128 0; input_line_index = 0 }

prompt-IsEcho : IsEcho (codes "root $ ") [] prompt
prompt-IsEcho = record {
  shown = refl;
  index = refl;
  small = omega arith;
  room = refl;
  chars = refl;
  no_nul = tt;
}

abbrev keys : List ℕ
keys = 108 ∷ 120 ∷ 8 ∷ 115 ∷ []

enter-typed_keys_example :
    let line = typed_keys keys [] in
    let after = terminal_handle_key silent 10 (handle_keys silent keys prompt) in
    IsEcho (codes "root $ ") line (handle_keys silent keys prompt)
    × (after.0 ≡ (if ltb 0 (length line) then some line else none))
    × IsEcho (entered silent (codes "root $ ") line) [] after.1
enter-typed_keys_example =
    enter-typed_keys silent (codes "root $ ") keys prompt (omega arith)
      (
        omega arith,
        omega arith,
        (omega arith, omega arith, (omega arith, omega arith, (omega arith, omega arith, tt))),
      )
      prompt-IsEcho
