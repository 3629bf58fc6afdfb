-- ===== src/Terminal.antt =====
-- The text of source/kernel/libs/apps/terminal.c: the output buffer, which is the list of its
-- characters before the NUL, its wrapping into lines, the first line that is shown, and the line that
-- is typed. The windows and the drawing are left out.
pub mod Text
pub mod Scrolling
pub mod Typing
pub mod Entering
mod Tests
use waffle_os.Common.{
  ℕ, zero, suc, ◌+◌, ◌-◌, Bool, true, false, not, ◌&&◌, List, [], ◌∷◌, ◌++◌, ltb, leb, ◌==◌,
  if◌then◌else◌, length, take, set, codes, Option, none, some,
}

abbrev pub terminal_buffer_size : ℕ
terminal_buffer_size = 1024

unfoldable pub terminal_putc : ℕ → List ℕ → List ℕ
terminal_putc c buffer =
    if ltb (length buffer) (terminal_buffer_size - 1) then buffer ++ c ∷ [] else buffer

unfoldable pub terminal_print : List ℕ → List ℕ → List ℕ
terminal_print text buffer =
    let available : ℕ = terminal_buffer_size - length buffer - 1 in
    if ltb (length buffer + length text) terminal_buffer_size
    then buffer ++ text
    else if ltb 0 available
    then buffer ++ take available text
    else buffer

unfoldable pub clear_terminal_buffer : List ℕ → List ℕ
clear_terminal_buffer buffer = []

-- `count` after a character.
unfoldable pub next_count : ℕ → ℕ → ℕ → ℕ
next_count max_chars count c =
    if c == 10 then 0 else if leb max_chars (count + 1) then 0 else count + 1

-- `input[i+1] != '\n'`
unfoldable pub starts_line : List ℕ → Bool
starts_line [] = false
starts_line (c ∷ input) = c == 10

-- Whether a newline goes in after a character: `room` is what is left of `out_size - 1`.
unfoldable pub breaks : ℕ → ℕ → ℕ → List ℕ → ℕ → Bool
unfolding starts_line
breaks max_chars count c input room =
    not (c == 10) && (leb max_chars (count + 1) && (not (starts_line input) && ltb 0 room))

unfoldable pub wrap_text : List ℕ → ℕ → ℕ → ℕ → List ℕ
unfolding next_count breaks
wrap_text [] room max_chars count = []
wrap_text (c ∷ input) zero max_chars count = []
wrap_text (c ∷ input) (suc room) max_chars count = elim (breaks max_chars count c input room) [
  | true ↦ c ∷ 10 ∷ wrap_text input (room - 1) max_chars (next_count max_chars count c)
  | false ↦ c ∷ wrap_text input room max_chars (next_count max_chars count c)
]

-- The loop that counts the lines.
unfoldable pub count_lines : List ℕ → ℕ
count_lines [] = 0
count_lines (c ∷ wrapped) = if c == 10 then suc (count_lines wrapped) else count_lines wrapped

-- The loop that skips lines, from `i` on with `count` lines behind it; 0 at the end of the text.
unfoldable pub skip_lines : ℕ → ℕ → ℕ → List ℕ → ℕ
skip_lines lines_to_skip count i [] = 0
skip_lines lines_to_skip count i (c ∷ wrapped) = elim (c == 10) [
  | true ↦ elim (count + 1 == lines_to_skip) [
    | true ↦ i + 1
    | false ↦ skip_lines lines_to_skip (count + 1) (i + 1) wrapped
  ]
  | false ↦ skip_lines lines_to_skip count (i + 1) wrapped
]

-- The next value of `terminal_visible_offset`.
unfoldable pub update_visible_offset : List ℕ → ℕ → ℕ
unfolding count_lines skip_lines
update_visible_offset wrapped max_lines =
    if ltb (count_lines wrapped) max_lines
    then 0
    else skip_lines (count_lines wrapped - max_lines) 0 0 wrapped

-- The output buffer and the line that is typed, in an array of 128 characters.
pub record Terminal : Type 0 where
  pub buffer : List ℕ
  pub input_line : List ℕ
  pub input_line_index : ℕ

abbrev pub terminal_input_max : ℕ
terminal_input_max = 128

-- The string at the start of an array.
unfoldable pub before_nul : List ℕ → List ℕ
before_nul [] = []
before_nul (c ∷ bytes) = if c == 0 then [] else c ∷ before_nul bytes

-- `run` is what `execute_command` makes of the output buffer.
module _ (run : List ℕ → List ℕ → List ℕ) where
  unfoldable pub enter_key : Terminal → Option (List ℕ) × Terminal
  unfolding terminal_print before_nul
  enter_key t =
      let input_line : List ℕ = set t.input_line t.input_line_index 0 in
      let line : List ℕ = before_nul input_line in
      let buffer : List ℕ = terminal_print (13 ∷ 10 ∷ []) t.buffer in
      let executes : Bool = ltb 0 t.input_line_index in
      let buffer' : List ℕ = if executes then run line buffer else buffer in
      (
        if executes then some line else none,
        record {
          buffer = terminal_print (codes "root $ ") buffer';
          input_line = input_line;
          input_line_index = 0;
        },
      )

  unfoldable pub backspace_key : Terminal → Terminal
  backspace_key t =
      if ltb 0 t.input_line_index
      then record t {
        buffer = if ltb 0 (length t.buffer) then take (length t.buffer - 1) t.buffer else t.buffer;
        input_line_index = t.input_line_index - 1;
      }
      else t

  unfoldable pub character_key : ℕ → Terminal → Terminal
  unfolding terminal_print before_nul
  character_key c t =
      if ltb t.input_line_index (terminal_input_max - 1)
      then record {
        buffer = terminal_print (before_nul (c ∷ [])) t.buffer;
        input_line = set t.input_line t.input_line_index c;
        input_line_index = t.input_line_index + 1;
      }
      else t

  -- The line that is executed, if one is, and the terminal.
  unfoldable pub terminal_handle_key : ℕ → Terminal → Option (List ℕ) × Terminal
  unfolding enter_key backspace_key character_key
  terminal_handle_key c t =
      if c == 10
      then enter_key t
      else if c == 8
      then (none, backspace_key t)
      else (none, character_key c t)
