-- ===== src/Terminal/Entering.antt =====
-- A line typed in the terminal of source/kernel/libs/apps/terminal.c and ended by enter.
use waffle_os.Common.{
  ℕ, ◌≤◌, ◌<◌, ◌≡◌, ◌≢◌, ◌∙◌, refl, ap, sym, subst, Bool, false, List, [], ◌∷◌, ◌++◌, Option, none,
  some, ltb, ◌==◌, if◌then◌else◌, length, length-set, append-nil, set, codes, arith, Bool-cases,
  inl, inr,
}
use waffle_os.Keyboard.Editing.{drop_last}
use waffle_os.Terminal.{
  Terminal, terminal_print, before_nul, enter_key, backspace_key, character_key,
  terminal_handle_key,
}
use waffle_os.Terminal.Typing.{
  typed_key, typed_keys, Plain, IsEcho, before_nul-set, character_key-IsEcho, backspace_key-IsEcho,
}

module _ (run : List ℕ → List ℕ → List ℕ) where
  unfoldable pub handle_keys : List ℕ → Terminal → Terminal
  handle_keys [] t = t
  handle_keys (c ∷ keys) t = handle_keys keys (terminal_handle_key run c t).1

  abbrev by_key : ℕ → Terminal → Bool → Bool → Option (List ℕ) × Terminal
  by_key c t enter back =
      if enter
      then enter_key run t
      else if back
      then (none, backspace_key run t)
      else (none, character_key run c t)

  key-IsEcho :
      (base : List ℕ) (c : ℕ) (line : List ℕ) (t : Terminal)
      → length base ≤ 895
      → 0 < c
      → c ≢ 10
      → IsEcho base line t
      → IsEcho base (typed_key c line) (terminal_handle_key run c t).1
  unfolding terminal_handle_key
  key-IsEcho base c line t fits some_char plain v =
      let other : (c == 10) ≡ false = ground arith in
      let character : List ℕ = if ltb (length line) 127 then line ++ c ∷ [] else line in
      subst (λ b. IsEcho base (typed_key c line) (by_key c t b (c == 8)).1) (sym other)
        (elim (Bool-cases (c == 8)) [
          | inl back ↦
              subst
                (λ b. IsEcho base (if b then drop_last line else character) (by_key c t false b).1)
                (sym back) (backspace_key-IsEcho run base line t v)
          | inr char ↦
              subst
                (λ b. IsEcho base (if b then drop_last line else character) (by_key c t false b).1)
                (sym char) (character_key-IsEcho run base c line t fits some_char v)
        ])

  handle_keys-IsEcho :
      (base keys line : List ℕ) (t : Terminal)
      → length base ≤ 895
      → Plain keys
      → IsEcho base line t
      → IsEcho base (typed_keys keys line) (handle_keys keys t)
  unfolding handle_keys
  handle_keys-IsEcho base [] line t fits plain v = v
  handle_keys-IsEcho base (c ∷ keys) line t fits (some_char, other, plain) v =
      handle_keys-IsEcho base keys (typed_key c line) (terminal_handle_key run c t).1 fits plain
        (key-IsEcho base c line t fits some_char other v)

  -- The buffer after enter: a new line, what the command prints, and the prompt.
  abbrev pub entered : List ℕ → List ℕ → List ℕ
  entered base line =
      let buffer : List ℕ = terminal_print (13 ∷ 10 ∷ []) (base ++ line) in
      terminal_print (codes "root $ ") (if ltb 0 (length line) then run line buffer else buffer)

  enter_key-line :
      (base line : List ℕ) (t : Terminal)
      → IsEcho base line t
      → before_nul (set t.input_line t.input_line_index 0) ≡ line
  enter_key-line base line t v =
      ap (λ i. before_nul (set t.input_line i 0)) v.index
      ∙ before_nul-set line t.input_line v.no_nul (omega (arith, v.small, v.room)) v.chars

  enter_key-IsEcho :
      (base line : List ℕ) (t : Terminal)
      → IsEcho base line t
      → ((enter_key run t).0 ≡ (if ltb 0 (length line) then some line else none))
        × IsEcho (entered base line) [] (enter_key run t).1
  unfolding enter_key
  enter_key-IsEcho base line t v =
      let typed = before_nul (set t.input_line t.input_line_index 0) in
      let same = enter_key-line base line t v in
      let print : ℕ → List ℕ → List ℕ → List ℕ = λ i l b.
        let buffer : List ℕ = terminal_print (13 ∷ 10 ∷ []) b in
        terminal_print (codes "root $ ") (if ltb 0 i then run l buffer else buffer) in
      (
        ap (λ i. if ltb 0 i then some typed else none) v.index
            ∙ ap (λ l. if ltb 0 (length line) then some l else none) same,
        record {
          shown =
              ap (λ i. print i typed t.buffer) v.index
              ∙ ap (λ l. print (length line) l t.buffer) same
              ∙ ap (print (length line) line) v.shown
              ∙ sym (append-nil (entered base line));
          index = refl;
          small = omega arith;
          room = length-set t.input_line t.input_line_index 0 ∙ v.room;
          chars = refl;
          no_nul = tt;
        },
      )

  -- From a prompt with at most 895 characters in the output buffer: after any keys but enter, none of them NUL, the
  -- buffer shows the line that they edit, which is at most 127 characters long, with a backspace taking
  -- back the last character of the line and nothing before it. Enter then hands exactly this line to
  -- execute_command, unless it is empty, and the terminal is at a prompt again, behind what the command
  -- has printed.
  pub enter-typed_keys :
      (base keys : List ℕ) (t : Terminal)
      → length base ≤ 895
      → Plain keys
      → IsEcho base [] t
      → let line = typed_keys keys [] in
        let after = terminal_handle_key run 10 (handle_keys keys t) in
        IsEcho base line (handle_keys keys t)
        × (after.0 ≡ (if ltb 0 (length line) then some line else none))
        × IsEcho (entered base line) [] after.1
  unfolding terminal_handle_key
  enter-typed_keys base keys t fits plain v =
      let echo = handle_keys-IsEcho base keys [] t fits plain v in
      let (executed, prompt) =
        enter_key-IsEcho base (typed_keys keys []) (handle_keys keys t) echo in
      (echo, executed, prompt)
