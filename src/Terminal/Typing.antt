-- ===== src/Terminal/Typing.antt =====
-- A line typed in the terminal of source/kernel/libs/apps/terminal.c, key by key.
use waffle_os.Common.{
  ℕ, suc, ◌+◌, ◌-◌, ◌≤◌, ◌<◌, ◌≡◌, ◌≢◌, ◌∙◌, refl, ap, sym, subst, true, false, List, [], ◌∷◌, ◌++◌,
  ltb, ◌==◌, if◌then◌else◌, length, length-append, length-set, take, take_append_ge, set,
  append_assoc, get_or, drop, arith, Bool-cases, inl, inr,
}
use waffle_os.Strings.Order.{NoNul}
use waffle_os.Keyboard.Editing.{
  drop_last, length-drop_last, drop_last_empty, take-shorter, take-set_next,
}
use waffle_os.Terminal.{Terminal, terminal_print, before_nul, backspace_key, character_key}

-- The line after a key other than enter.
abbrev pub typed_key : ℕ → List ℕ → List ℕ
typed_key c line =
    if c == 8 then drop_last line else if ltb (length line) 127 then line ++ c ∷ [] else line

abbrev pub typed_keys : List ℕ → List ℕ → List ℕ
typed_keys [] line = line
typed_keys (c ∷ keys) line = typed_keys keys (typed_key c line)

-- Neither enter nor NUL.
abbrev pub Plain : List ℕ → Type 0
Plain [] = Unit
Plain (c ∷ keys) = (0 < c) × (c ≢ 10) × Plain keys

-- The buffer ends with the line, which the array holds too.
pub record IsEcho (base line : List ℕ) (t : Terminal) : Type 0 where
  pub shown : t.buffer ≡ base ++ line
  pub index : t.input_line_index ≡ length line
  pub small : length line ≤ 127
  pub room : length t.input_line ≡ 128
  pub chars : take (length line) t.input_line ≡ line
  pub no_nul : NoNul line

pub before_nul-set :
    (line bytes : List ℕ)
    → NoNul line
    → length line < length bytes
    → take (length line) bytes ≡ line
    → before_nul (set bytes (length line) 0) ≡ line
unfolding before_nul
before_nul-set [] [] clean room same = absurd (omega arith)
before_nul-set [] (b ∷ bytes) clean room same = refl
before_nul-set (c ∷ line) [] clean room same = absurd (omega arith)
before_nul-set (c ∷ line) (b ∷ bytes) (some_char, clean) room same =
    let head : b ≡ c = ap (λ l. get_or l 0 0) same in
    let tail : take (length line) bytes ≡ line = ap (drop 1) same in
    let some_byte : (b == 0) ≡ false = ground arith in
    let rest = before_nul (set bytes (length line) 0) in
    ap (λ z. if z then [] else b ∷ rest) some_byte
    ∙ ap (λ x. x ∷ rest) head
    ∙ ap (λ r. c ∷ r) (before_nul-set line bytes clean (omega arith) tail)

NoNul-drop_last : (line : List ℕ) → NoNul line → NoNul (drop_last line)
NoNul-drop_last [] v = tt
NoNul-drop_last (x ∷ []) v = tt
NoNul-drop_last (x ∷ y ∷ xs) (p, v) = (p, NoNul-drop_last (y ∷ xs) v)

NoNul-snoc : (line : List ℕ) (c : ℕ) → 0 < c → NoNul line → NoNul (line ++ c ∷ [])
NoNul-snoc [] c p v = (p, tt)
NoNul-snoc (x ∷ xs) c p (q, v) = (q, NoNul-snoc xs c p v)

print-room :
    (text buffer : List ℕ)
    → length buffer + length text < 1024
    → terminal_print text buffer ≡ buffer ++ text
unfolding terminal_print
print-room text buffer fits =
    let room : ltb (length buffer + length text) 1024 ≡ true = ground arith in rw room

one_left : (n : ℕ) → suc (suc n) - 1 ≡ suc (suc n - 1)
one_left n = omega arith

take-drop_last : (line : List ℕ) → take (length line - 1) line ≡ drop_last line
take-drop_last [] = refl
take-drop_last (x ∷ []) =
    let none_left : 1 - 1 ≡ 0 = omega arith in ap (λ k. take k (x ∷ [])) none_left
take-drop_last (x ∷ y ∷ xs) =
    ap (λ k. take k (x ∷ y ∷ xs)) (one_left (length xs)) ∙ ap (λ l. x ∷ l) (take-drop_last (y ∷ xs))

before_nul-char : (c : ℕ) → 0 < c → before_nul (c ∷ []) ≡ c ∷ []
unfolding before_nul
before_nul-char c some_char = let other : (c == 0) ≡ false = ground arith in rw other

-- The last character of the buffer is the last one of the line.
shorter-buffer :
    (base line : List ℕ)
    → 0 < length line
    → take (length (base ++ line) - 1) (base ++ line) ≡ base ++ drop_last line
shorter-buffer base line pos =
    let whole = length-append base line in
    let left : length (base ++ line) - 1 - length base ≡ length line - 1 = omega arith in
    take_append_ge (length (base ++ line) - 1) base line (omega arith)
    ∙ ap (λ k. base ++ take k line) left
    ∙ ap (λ l. base ++ l) (take-drop_last line)

module _ (run : List ℕ → List ℕ → List ℕ) (base : List ℕ) where
  put-IsEcho :
      (c : ℕ) (line : List ℕ) (t : Terminal)
      → length base ≤ 895
      → 0 < c
      → length line < 127
      → IsEcho base line t
      → IsEcho base (line ++ c ∷ []) (record {
        buffer = terminal_print (before_nul (c ∷ [])) t.buffer;
        input_line = set t.input_line t.input_line_index c;
        input_line_index = t.input_line_index + 1;
      })
  put-IsEcho c line t fits some_char below v =
      let longer : length (line ++ c ∷ []) ≡ suc (length line) =
        omega (arith, length-append line (c ∷ [])) in
      let whole = length-append base line in
      record {
        shown =
            ap (λ s. terminal_print s t.buffer) (before_nul-char c some_char)
            ∙ ap (terminal_print (c ∷ [])) v.shown
            ∙ print-room (c ∷ []) (base ++ line) (omega arith)
            ∙ append_assoc base line (c ∷ []);
        index = omega (arith, longer, v.index);
        small = omega (arith, longer);
        room = length-set t.input_line t.input_line_index c ∙ v.room;
        chars =
            ap (λ n. take n (set t.input_line t.input_line_index c)) longer
            ∙ ap (λ i. take (suc (length line)) (set t.input_line i c)) v.index
            ∙ take-set_next (length line) t.input_line c (omega (arith, v.room))
            ∙ ap (λ l. l ++ c ∷ []) v.chars;
        no_nul = NoNul-snoc line c some_char v.no_nul;
      }

  pub character_key-IsEcho :
      (c : ℕ) (line : List ℕ) (t : Terminal)
      → length base ≤ 895
      → 0 < c
      → IsEcho base line t
      → IsEcho base (if ltb (length line) 127 then line ++ c ∷ [] else line) (character_key run c t)
  unfolding character_key
  character_key-IsEcho c line t fits some_char v =
      let put : Terminal = record {
        buffer = terminal_print (before_nul (c ∷ [])) t.buffer;
        input_line = set t.input_line t.input_line_index c;
        input_line_index = t.input_line_index + 1;
      } in
      let at : ltb (length line) 127 ≡ ltb t.input_line_index 127 =
        ap (λ i. ltb i 127) (sym v.index) in
      subst
        (λ b.
          IsEcho base (if ltb (length line) 127 then line ++ c ∷ [] else line)
            (if b then put else t))
        at
        (elim (Bool-cases (ltb (length line) 127)) [
          | inl below ↦
              subst (λ b. IsEcho base (if b then line ++ c ∷ [] else line) (if b then put else t))
                (sym below) (put-IsEcho c line t fits some_char (ground arith) v)
          | inr full ↦
              subst (λ b. IsEcho base (if b then line ++ c ∷ [] else line) (if b then put else t))
                (sym full) v
        ])

  shorter-IsEcho :
      (line : List ℕ) (t : Terminal)
      → 0 < length line
      → IsEcho base line t
      → IsEcho base (drop_last line) (record t {
        buffer = if ltb 0 (length t.buffer) then take (length t.buffer - 1) t.buffer else t.buffer;
        input_line_index = t.input_line_index - 1;
      })
  shorter-IsEcho line t some_line v =
      let whole = length-append base line in
      let some_text : ltb 0 (length t.buffer) ≡ true = let e = ap length v.shown in ground arith in
      record {
        shown =
            ap (λ b. if b then take (length t.buffer - 1) t.buffer else t.buffer) some_text
            ∙ ap (λ l. take (length l - 1) l) v.shown
            ∙ shorter-buffer base line some_line;
        index = omega (arith, length-drop_last line, v.index);
        small = omega (arith, length-drop_last line, v.small);
        room = v.room;
        chars = take-shorter line t.input_line some_line (omega (arith, v.small, v.room)) v.chars;
        no_nul = NoNul-drop_last line v.no_nul;
      }

  pub backspace_key-IsEcho :
      (line : List ℕ) (t : Terminal)
      → IsEcho base line t
      → IsEcho base (drop_last line) (backspace_key run t)
  unfolding backspace_key
  backspace_key-IsEcho line t v =
      let shorter : Terminal = record t {
        buffer = if ltb 0 (length t.buffer) then take (length t.buffer - 1) t.buffer else t.buffer;
        input_line_index = t.input_line_index - 1;
      } in
      let at : ltb 0 (length line) ≡ ltb 0 t.input_line_index = ap (ltb 0) (sym v.index) in
      subst (λ b. IsEcho base (drop_last line) (if b then shorter else t)) at
        (elim (Bool-cases (ltb 0 (length line))) [
          | inl some_line ↦
              subst (λ b. IsEcho base (drop_last line) (if b then shorter else t)) (sym some_line)
                (shorter-IsEcho line t (ground arith) v)
          | inr no_line ↦
              subst (λ b. IsEcho base (drop_last line) (if b then shorter else t)) (sym no_line)
                (subst (λ l. IsEcho base l t) (drop_last_empty line (ground arith)) v)
        ])
