-- ===== src/Keyboard/Reading.antt =====
-- `read_line` of source/kernel/drivers/keyboard.c returns the line that was typed.
use waffle_os.Common.{
  ℕ, zero, suc, ◌≡◌, refl, Bool, true, false, List, [], ◌∷◌, ◌++◌, ◌==◌, if◌then◌else◌, get_or,
  arith, take, length, some, ◌∙◌, get_or-set_self,
}
use waffle_os.Keyboard.{
  Keyboard, ascii_of, press_enter, press_backspace, type_char, press, keyboard_handler,
  reset_keyboard, wait_line, read_line,
}
use waffle_os.Keyboard.Editing.{IsLine, edited, edited_all, take-set_above, keyboard_handler-IsLine}

-- What `read_line` returns: a line that is ready, in front of a NUL.
abbrev pub Read : List ℕ → Keyboard → Type 0
Read line k =
    (k.line_ready ≡ true)
    × (take (length line) k.input_buffer ≡ line)
    × (get_or k.input_buffer (length line) 0 ≡ 0)

abbrev pub NoEnter : List (ℕ × ℕ) → Type 0
NoEnter [] = Unit
NoEnter ((status, scancode) ∷ keys) = ((scancode == 28) ≡ false) × NoEnter keys

press_backspace-line_ready : (k : Keyboard) → (press_backspace true k).0.line_ready ≡ k.line_ready
unfolding press_backspace
press_backspace-line_ready k = ground arith

type_char-line_ready : (c : ℕ) (k : Keyboard) → (type_char true c k).0.line_ready ≡ k.line_ready
unfolding type_char
type_char-line_ready zero k = refl
type_char-line_ready (suc c) k = refl

if_true {ℓ} : {A : Type ℓ} (b : Bool) (x y : A) → b ≡ true → (if b then x else y) ≡ x
if_true b x y e = rw e

if_false {ℓ} : {A : Type ℓ} (b : Bool) (x y : A) → b ≡ false → (if b then x else y) ≡ y
if_false b x y e = rw e

module _ (beyond : ℕ → ℕ) where
  press_enter-Read :
      (line : List ℕ) (k : Keyboard)
      → IsLine line k
      → Read line (keyboard_handler beyond true 1 28 k).0
  unfolding keyboard_handler press press_enter
  press_enter-Read line k v =
      let index = v.index in
      let room = v.room in
      let small = v.small in
      rw index (
        refl,
        take-set_above (length line) k.input_buffer 0 ∙ v.chars,
        get_or-set_self k.input_buffer (length line) 0 0 (omega arith),
      )

  keyboard_handler-line_ready :
      (status scancode : ℕ) (k : Keyboard)
      → (scancode == 28) ≡ false
      → (keyboard_handler beyond true status scancode k).0.line_ready ≡ k.line_ready
  unfolding keyboard_handler press
  keyboard_handler-line_ready status scancode k other =
      ground
        (arith, press_backspace-line_ready k, type_char-line_ready (ascii_of beyond scancode) k)

  wait_line_ready :
      (keys : List (ℕ × ℕ)) (k : Keyboard)
      → k.line_ready ≡ true
      → wait_line beyond true keys k ≡ some (k, keys)
  unfolding wait_line
  wait_line_ready [] k ready = if_true k.line_ready _ _ ready
  wait_line_ready ((status, scancode) ∷ keys) k ready = if_true k.line_ready _ _ ready

  wait_line-Read :
      (keys more : List (ℕ × ℕ)) (line : List ℕ) (k : Keyboard)
      → NoEnter keys
      → k.line_ready ≡ false
      → IsLine line k
      → (read : Keyboard) × (wait_line beyond true (keys ++ (1, 28) ∷ more) k ≡ some (read, more))
        × Read (edited_all beyond keys line) read
  unfolding wait_line
  wait_line-Read [] more line k others waits v =
      let k' = (keyboard_handler beyond true 1 28 k).0 in
      let read = press_enter-Read line k v in
      (k', if_false k.line_ready _ _ waits ∙ wait_line_ready more k' read.0, read)
  wait_line-Read ((status, scancode) ∷ keys) more line k (other, others) waits v =
      let k' = (keyboard_handler beyond true status scancode k).0 in
      let (read, returns, whole) =
        wait_line-Read keys more (edited beyond (status, scancode) line) k' others
          (keyboard_handler-line_ready status scancode k other ∙ waits)
          (keyboard_handler-IsLine beyond status scancode line k v) in
      (read, if_false k.line_ready _ _ waits ∙ returns, whole)

-- In text mode, whatever was typed before, `read_line` returns as soon as enter is pressed, with
-- the line that the interrupts up to it have edited, from an empty one on, and a NUL behind it.
pub read_line-Read :
    (beyond : ℕ → ℕ) (keys more : List (ℕ × ℕ)) (k : Keyboard)
    → length k.input_buffer ≡ 256
    → NoEnter keys
    → (read : Keyboard) × (read_line beyond true (keys ++ (1, 28) ∷ more) k ≡ some (read, more))
      × Read (edited_all beyond keys []) read
unfolding read_line reset_keyboard
read_line-Read beyond keys more k room others =
    let empty : IsLine [] (reset_keyboard k) = record {
      index = refl;
      small = omega arith;
      room = room;
      chars = refl;
    } in
    wait_line-Read beyond keys more [] (reset_keyboard k) others refl empty
