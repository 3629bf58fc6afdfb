-- ===== src/Keyboard/Editing.antt =====
-- The handler of source/kernel/drivers/keyboard.c edits a line of at most 255 characters.
use waffle_os.Common.{
  ℕ, zero, suc, ◌-◌, ◌%◌, ◌≤◌, ◌<◌, ◌≡◌, refl, true, false, List, [], ◌∷◌, ◌++◌, ◌==◌, ltb,
  if◌then◌else◌, set, arith, take, length, ap, sym, ◌∙◌, length-append, length-set, Bool-cases, inl,
  inr, ltb→lt,
}
use waffle_os.Keyboard.{
  Keyboard, ascii_of, press_enter, press_backspace, type_char, press, keyboard_handler, receive,
}

abbrev pub drop_last : List ℕ → List ℕ
drop_last [] = []
drop_last (x ∷ []) = []
drop_last (x ∷ y ∷ xs) = x ∷ drop_last (y ∷ xs)

-- A character that is typed, 0 being none.
abbrev pub typed : ℕ → List ℕ → List ℕ
typed zero line = line
typed (suc c) line = if ltb (length line) 255 then line ++ (suc c ∷ []) else line

-- The line after a key that is pressed.
abbrev pub pressed : (ℕ → ℕ) → ℕ → List ℕ → List ℕ
pressed beyond scancode line =
    if scancode == 28
    then line
    else if scancode == 14
    then drop_last line
    else typed (ascii_of beyond scancode) line

-- The line after an interrupt in text mode.
abbrev pub edited : (ℕ → ℕ) → ℕ × ℕ → List ℕ → List ℕ
edited beyond (status, scancode) line =
    if status % 2 == 1
    then (if ltb scancode 128 then pressed beyond scancode line else line)
    else line

abbrev pub edited_all : (ℕ → ℕ) → List (ℕ × ℕ) → List ℕ → List ℕ
edited_all beyond [] line = line
edited_all beyond (key ∷ keys) line = edited_all beyond keys (edited beyond key line)

-- The buffer begins with the line, has all its 256 places, and has one left.
pub record IsLine (line : List ℕ) (k : Keyboard) : Type 0 where
  pub index : k.buffer_index ≡ length line
  pub small : length line < 256
  pub room : length k.input_buffer ≡ 256
  pub chars : take (length line) k.input_buffer ≡ line

pub take-set_above : (n : ℕ) (xs : List ℕ) (v : ℕ) → take n (set xs n v) ≡ take n xs
take-set_above zero xs v = refl
take-set_above (suc n) [] v = refl
take-set_above (suc n) (x ∷ xs) v = ap (λ t. x ∷ t) (take-set_above n xs v)

pub take-set_next :
    (n : ℕ) (xs : List ℕ) (v : ℕ)
    → n < length xs
    → take (suc n) (set xs n v) ≡ take n xs ++ (v ∷ [])
take-set_next n [] v h = absurd (omega arith)
take-set_next zero (x ∷ xs) v h = refl
take-set_next (suc n) (x ∷ xs) v h = ap (λ t. x ∷ t) (take-set_next n xs v (omega arith))

drop_last-take : (n : ℕ) (xs : List ℕ) → n < length xs → drop_last (take (suc n) xs) ≡ take n xs
drop_last-take n [] h = absurd (omega arith)
drop_last-take zero (x ∷ xs) h = refl
drop_last-take (suc n) (x ∷ []) h = absurd (omega arith)
drop_last-take (suc n) (x ∷ y ∷ xs) h = ap (λ t. x ∷ t) (drop_last-take n (y ∷ xs) (omega arith))

pub length-drop_last : (xs : List ℕ) → length (drop_last xs) ≡ length xs - 1
length-drop_last [] = refl
length-drop_last (x ∷ []) = refl
length-drop_last (x ∷ y ∷ xs) = omega (arith, length-drop_last (y ∷ xs))

pub take-shorter :
    (line xs : List ℕ)
    → 0 < length line
    → length line ≤ length xs
    → take (length line) xs ≡ line
    → take (length (drop_last line)) xs ≡ drop_last line
take-shorter line xs pos room chars =
    let same : suc (length (drop_last line)) ≡ length line = omega (arith, length-drop_last line) in
    let whole : take (suc (length (drop_last line))) xs ≡ line = rw same chars in
    sym (drop_last-take (length (drop_last line)) xs (omega arith)) ∙ ap drop_last whole

press_enter-IsLine :
    (line : List ℕ) (k : Keyboard) → IsLine line k → IsLine line (press_enter true k).0
unfolding press_enter
press_enter-IsLine line k v = record {
  index = v.index;
  small = v.small;
  room = length-set k.input_buffer k.buffer_index 0 ∙ v.room;
  chars = rw v.index (take-set_above (length line) k.input_buffer 0 ∙ v.chars);
}

drop_last-IsLine :
    (line : List ℕ) (k : Keyboard)
    → 0 < length line
    → IsLine line k
    → IsLine (drop_last line) (record k {
      buffer_index = k.buffer_index - 1;
      input_buffer = set k.input_buffer (k.buffer_index - 1) 0;
    })
drop_last-IsLine line k pos v =
    let at : k.buffer_index - 1 ≡ length (drop_last line) =
      omega (arith, length-drop_last line, v.index) in
    let small = v.small in
    let room = v.room in
    record {
      index = at;
      small = omega (arith, length-drop_last line);
      room = length-set k.input_buffer (k.buffer_index - 1) 0 ∙ v.room;
      chars = rw at (
          take-set_above (length (drop_last line)) k.input_buffer 0
          ∙ take-shorter line k.input_buffer pos (omega arith) v.chars);
    }

pub drop_last_empty : (line : List ℕ) → length line ≤ 0 → line ≡ drop_last line
drop_last_empty [] h = refl
drop_last_empty (x ∷ xs) h = absurd (omega arith)

press_backspace-IsLine :
    (line : List ℕ) (k : Keyboard)
    → IsLine line k
    → IsLine (drop_last line) (press_backspace true k).0
unfolding press_backspace
press_backspace-IsLine line k v =
    let index = v.index in
    elim (Bool-cases (ltb 0 k.buffer_index)) [
      | inl some_char ↦ rw some_char (drop_last-IsLine line k (ground arith) v)
      | inr no_char ↦
          let empty : length line ≤ 0 = ground arith in
          rw (no_char, ← (drop_last_empty line empty)) v
    ]

type_char-IsLine :
    (c : ℕ) (line : List ℕ) (k : Keyboard)
    → k.buffer_index < 255
    → IsLine line k
    → IsLine (typed c line) (type_char true c k).0
unfolding type_char
type_char-IsLine zero line k below v = v
type_char-IsLine (suc c) line k below v =
    let index = v.index in
    let room = v.room in
    let fits : ltb (length line) 255 ≡ true = ground arith in
    let longer : length (line ++ suc c ∷ []) ≡ suc (length line) =
      omega (arith, length-append line (suc c ∷ [])) in
    rw fits (record {
      index = omega (arith, longer);
      small = omega (arith, longer);
      room = length-set k.input_buffer k.buffer_index (suc c) ∙ v.room;
      chars =
          rw (longer, index)
            (take-set_next (length line) k.input_buffer (suc c) (omega arith)
              ∙ ap (λ t. t ++ (suc c ∷ [])) v.chars);
    })

-- A full line takes no further character.
typed_full : (c : ℕ) (line : List ℕ) → ltb (length line) 255 ≡ false → typed c line ≡ line
typed_full zero line full = refl
typed_full (suc c) line full = rw full

module _ (beyond : ℕ → ℕ) where
  press-IsLine :
      (scancode : ℕ) (line : List ℕ) (k : Keyboard)
      → IsLine line k
      → IsLine (pressed beyond scancode line) (press beyond true scancode k).0
  unfolding press
  press-IsLine scancode line k v = elim (Bool-cases (scancode == 28)) [
    | inl enter ↦ rw enter (press_enter-IsLine line k v)
    | inr other ↦ elim (Bool-cases (scancode == 14)) [
      | inl back ↦ rw (other, back) (press_backspace-IsLine line k v)
      | inr char ↦ elim (Bool-cases (ltb k.buffer_index 255)) [
        | inl below ↦
            rw (other, char, below)
              (type_char-IsLine (ascii_of beyond scancode) line k (ltb→lt k.buffer_index 255 below)
                v)
        | inr full ↦
            let at_end : ltb (length line) 255 ≡ false = rw v.index at full in
            rw (other, char, full, typed_full (ascii_of beyond scancode) line at_end) v
      ]
    ]
  ]

  pub keyboard_handler-IsLine :
      (status scancode : ℕ) (line : List ℕ) (k : Keyboard)
      → IsLine line k
      → IsLine
          (edited beyond (status, scancode) line)
          (keyboard_handler beyond true status scancode k).0
  unfolding keyboard_handler
  keyboard_handler-IsLine status scancode line k v = elim (Bool-cases (status % 2 == 1)) [
    | inl full ↦ elim (Bool-cases (ltb scancode 128)) [
      | inl press_event ↦ rw (full, press_event) (press-IsLine scancode line k v)
      | inr release ↦ rw (full, release) v
    ]
    | inr nothing ↦ rw nothing v
  ]

  -- In text mode the interrupts edit the line in the buffer: a character, of the table or of what
  -- lies behind it, goes to its end as long as there are fewer than 255, a backspace takes its last character if there
  -- is one, and enter, releases, codes without a character and interrupts without data leave it.
  -- The buffer keeps its 256 places and the index stays inside.
  pub receive-IsLine :
      (keys : List (ℕ × ℕ)) (line : List ℕ) (k : Keyboard)
      → IsLine line k
      → IsLine (edited_all beyond keys line) (receive beyond true keys k).0
  unfolding receive
  receive-IsLine [] line k v = v
  receive-IsLine ((status, scancode) ∷ keys) line k v =
      receive-IsLine keys (edited beyond (status, scancode) line)
        (keyboard_handler beyond true status scancode k).0
        (keyboard_handler-IsLine status scancode line k v)
