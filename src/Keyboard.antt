-- ===== src/Keyboard.antt =====
-- source/kernel/drivers/keyboard.c: the interrupt handler and the line that it edits. `g_text_mode`
-- is an argument. What the handler shows is a list of outputs in order. `min_col`, a column of the
-- display, is left out.
pub mod Editing
pub mod Reading
mod Tests
use waffle_os.Common.{
  ℕ, zero, suc, ◌+◌, ◌-◌, ◌/◌, ◌%◌, Bool, true, false, List, [], ◌∷◌, ◌++◌, ◌==◌, ltb,
  if◌then◌else◌, set, get_or, codes, Option, none, some,
}

pub record Keyboard : Type 0 where
  pub input_buffer : List ℕ
  pub buffer_index : ℕ
  pub line_ready : Bool

-- `console_putc(c)` in text mode, and `terminal_handle_key(c)`.
pub data Output : Type 0 where
  echo terminal_key : ℕ → Output

abbrev pub max_input_length : ℕ
max_input_length = 256

-- Scan codes 0x00, 0x10, 0x1D and 0x2A begin rows of it.
unfoldable pub scancode_to_ascii : List ℕ
scancode_to_ascii =
    (0 ∷ 0 ∷ codes "1234567890-=")
    ++ (8 ∷ 9 ∷ codes "qwertyuiop[]")
    ++ (10 ∷ 0 ∷ codes "asdfghjkl;'`")
    ++ (0 ∷ 92 ∷ codes "zxcvbnm,./")
    ++ (0 ∷ b'*' ∷ 0 ∷ b' ' ∷ [])

-- The table has 58 characters, and a scan code is below 128: what lies behind the table is the
-- parameter `beyond`.
unfoldable pub ascii_of : (ℕ → ℕ) → ℕ → ℕ
unfolding scancode_to_ascii
ascii_of beyond scancode =
    if ltb scancode 58 then get_or scancode_to_ascii scancode 0 else beyond scancode

unfoldable pub press_enter : Bool → Keyboard → Keyboard × List Output
press_enter false k = (k, terminal_key 10 ∷ [])
press_enter true k = (
  record k { input_buffer = set k.input_buffer k.buffer_index 0; line_ready = true },
  echo 13 ∷ echo 10 ∷ [],
)

unfoldable pub press_backspace : Bool → Keyboard → Keyboard × List Output
press_backspace false k = (k, terminal_key 8 ∷ [])
press_backspace true k =
    if ltb 0 k.buffer_index
    then (
      record k {
        buffer_index = k.buffer_index - 1;
        input_buffer = set k.input_buffer (k.buffer_index - 1) 0;
      },
      echo 8 ∷ [],
    )
    else (k, [])

-- `if (ascii != 0)`
unfoldable pub type_char : Bool → ℕ → Keyboard → Keyboard × List Output
type_char text_mode zero k = (k, [])
type_char false (suc c) k = (k, terminal_key (suc c) ∷ [])
type_char true (suc c) k = (
  record k {
    input_buffer = set k.input_buffer k.buffer_index (suc c);
    buffer_index = k.buffer_index + 1;
  },
  echo (suc c) ∷ [],
)

module _ (beyond : ℕ → ℕ) (text_mode : Bool) where
  -- A key that is pressed: `if (!(scancode & 0x80))`.
  unfoldable pub press : ℕ → Keyboard → Keyboard × List Output
  unfolding press_enter press_backspace type_char ascii_of
  press scancode k =
      if scancode == 28
      then press_enter text_mode k
      else if scancode == 14
      then press_backspace text_mode k
      else if ltb k.buffer_index (max_input_length - 1)
      then type_char text_mode (ascii_of beyond scancode) k
      else (k, [])

  unfoldable pub keyboard_handler : ℕ → ℕ → Keyboard → Keyboard × List Output
  unfolding press
  keyboard_handler status scancode k =
      if status % 2 == 1 then (if ltb scancode 128 then press scancode k else (k, [])) else (k, [])

  -- The interrupts for a sequence of status and scan code pairs.
  unfoldable pub receive : List (ℕ × ℕ) → Keyboard → Keyboard × List Output
  unfolding keyboard_handler
  receive [] k = (k, [])
  receive ((status, scancode) ∷ keys) k =
      let (k', shown) = keyboard_handler status scancode k in
      let (k'', rest) = receive keys k' in (k'', shown ++ rest)

unfoldable pub reset_keyboard : Keyboard → Keyboard
reset_keyboard k = record k { buffer_index = 0; line_ready = false }

module _ (beyond : ℕ → ℕ) (text_mode : Bool) where
  -- `while (!line_ready)`, with the interrupts to come, and those that have not come afterwards.
  -- `none` means that it still waits.
  unfoldable pub wait_line : List (ℕ × ℕ) → Keyboard → Option (Keyboard × List (ℕ × ℕ))
  unfolding keyboard_handler
  wait_line [] k = if k.line_ready then some (k, []) else none
  wait_line ((status, scancode) ∷ keys) k =
      let rest = wait_line keys (keyboard_handler beyond text_mode status scancode k).0 in
      if k.line_ready then some (k, (status, scancode) ∷ keys) else rest

  unfoldable pub read_line : List (ℕ × ℕ) → Keyboard → Option (Keyboard × List (ℕ × ℕ))
  unfolding wait_line reset_keyboard
  read_line keys k = wait_line keys (reset_keyboard k)
