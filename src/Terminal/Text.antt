-- ===== src/Terminal/Text.antt =====
-- What the output buffer of source/kernel/libs/apps/terminal.c holds, and the lines it is cut into.
use waffle_os.Common.{
  ℕ, zero, suc, ◌+◌, ◌-◌, ◌≤◌, ◌<◌, ◌≡◌, refl, Bool, true, false, not, ◌&&◌, List, [], ◌∷◌, ◌++◌,
  ltb, ltb→lt, not-ltb→le, leb, ◌==◌, if◌then◌else◌, length, take, take_all, take_append_ge,
  length-append, append_assoc, append-nil, arith, ap, sym, ◌∙◌, Bool-cases, inl, inr,
}
use waffle_os.Terminal.{terminal_putc, terminal_print, next_count, starts_line, breaks, wrap_text}

-- Each character in turn.
abbrev pub put_each : List ℕ → List ℕ → List ℕ
put_each [] buffer = buffer
put_each (c ∷ text) buffer = put_each text (terminal_putc c buffer)

print_take :
    (text buffer : List ℕ)
    → length buffer ≤ 1023
    → terminal_print text buffer ≡ take 1023 (buffer ++ text)
unfolding terminal_print
print_take text buffer h =
    let whole = length-append buffer text in
    let cut : take 1023 (buffer ++ text) ≡ buffer ++ take (1023 - length buffer) text =
      take_append_ge 1023 buffer text h in
    elim (Bool-cases (ltb (length buffer + length text) 1024)) [
      | inl fits ↦
          let small : length buffer + length text < 1024 =
            ltb→lt (length buffer + length text) 1024 fits in
          rw fits (sym (take_all 1023 (buffer ++ text) (omega (arith, whole, small))))
      | inr long ↦
          let room : 1024 - length buffer - 1 ≡ 1023 - length buffer = omega arith in
          elim (Bool-cases (ltb 0 (1024 - length buffer - 1))) [
            | inl some_room ↦ rw (long, some_room) (ap (λ n. buffer ++ take n text) room ∙ sym cut)
            | inr full ↦
                let no_room = not-ltb→le 0 (1024 - length buffer - 1) full in
                let none_left : 1023 - length buffer ≡ 0 = omega (arith, no_room) in
                rw (long, full)
                  (sym (cut ∙ ap (λ n. buffer ++ take n text) none_left ∙ append-nil buffer))
          ]
    ]

put_take :
    (text buffer : List ℕ)
    → length buffer ≤ 1023
    → put_each text buffer ≡ take 1023 (buffer ++ text)
unfolding terminal_putc
put_take [] buffer h = sym (ap (take 1023) (append-nil buffer) ∙ take_all 1023 buffer h)
put_take (c ∷ text) buffer h =
    let longer = length-append buffer (c ∷ []) in
    elim (Bool-cases (ltb (length buffer) 1023)) [
      | inl room ↦ rw room (
          put_take text (buffer ++ c ∷ []) (ground (arith, longer))
          ∙ ap (take 1023) (append_assoc buffer (c ∷ []) text))
      | inr full ↦
          let none_left : 1023 - length buffer ≡ 0 = ground arith in
          let same : (t : List ℕ) → take 1023 (buffer ++ t) ≡ buffer = λ t.
            take_append_ge 1023 buffer t h
            ∙ ap (λ n. buffer ++ take n t) none_left
            ∙ append-nil buffer in
          rw full (put_take text buffer h ∙ same text ∙ sym (same (c ∷ text)))
    ]

-- On a buffer of at most 1023 characters `terminal_print` does what `terminal_putc` does character by
-- character, and the buffer then holds its old text and the new one, cut at 1023 characters.
terminal_print-put_each :
    (text buffer : List ℕ)
    → length buffer ≤ 1023
    → (terminal_print text buffer ≡ put_each text buffer)
      × (terminal_print text buffer ≡ take 1023 (buffer ++ text))
terminal_print-put_each text buffer h =
    (print_take text buffer h ∙ sym (put_take text buffer h), print_take text buffer h)

-- No line of a text has more than `n` characters, `column` of them before the text.
abbrev pub lines_within : ℕ → ℕ → List ℕ → Bool
lines_within n column [] = true
lines_within n column (c ∷ text) =
    if c == 10
    then lines_within n 0 text
    else leb (column + 1) n && lines_within n (column + 1) text

wrap_on :
    (c : ℕ) (input : List ℕ) (room n count : ℕ)
    → breaks n count c input room ≡ false
    → wrap_text (c ∷ input) (suc room) n count ≡ c ∷ wrap_text input room n (next_count n count c)
unfolding wrap_text
wrap_on c input room n count e = rw (wrap_text, e) refl

wrap_break :
    (c : ℕ) (input : List ℕ) (room n count : ℕ)
    → breaks n count c input room ≡ true
    → wrap_text (c ∷ input) (suc room) n count
      ≡ c ∷ 10 ∷ wrap_text input (room - 1) n (next_count n count c)
unfolding wrap_text
wrap_break c input room n count e = rw (wrap_text, e) refl

wrap_nil : (room n count : ℕ) → wrap_text [] room n count ≡ []
unfolding wrap_text
wrap_nil room n count = refl

wrap_full : (input : List ℕ) (n count : ℕ) → wrap_text input 0 n count ≡ []
unfolding wrap_text
wrap_full [] n count = refl
wrap_full (c ∷ input) n count = refl

next_count-newline : (n count c : ℕ) → (c == 10) ≡ true → next_count n count c ≡ 0
unfolding next_count
next_count-newline n count c e = rw e refl

breaks-newline :
    (n count c room : ℕ) (input : List ℕ) → (c == 10) ≡ true → breaks n count c input room ≡ false
unfolding breaks
breaks-newline n count c room input e = rw e refl

next_count-full :
    (n count c : ℕ) → (c == 10) ≡ false → leb n (count + 1) ≡ true → next_count n count c ≡ 0
unfolding next_count
next_count-full n count c e f = rw (e, f) refl

next_count-inside :
    (n count c : ℕ)
    → (c == 10) ≡ false
    → leb n (count + 1) ≡ false
    → next_count n count c ≡ count + 1
unfolding next_count
next_count-inside n count c e f = rw (e, f) refl

breaks-inside :
    (n count c room : ℕ) (input : List ℕ)
    → (c == 10) ≡ false
    → leb n (count + 1) ≡ false
    → breaks n count c input room ≡ false
unfolding breaks
breaks-inside n count c room input e f = rw (e, f) refl

breaks-full :
    (n count c room : ℕ) (input : List ℕ)
    → (c == 10) ≡ false
    → leb n (count + 1) ≡ true
    → breaks n count c input room ≡ (not (starts_line input) && ltb 0 room)
unfolding breaks
breaks-full n count c room input e f = rw (e, f) refl

-- A newline ends any line.
starts_line-within :
    (input : List ℕ) (room n : ℕ)
    → starts_line input ≡ true
    → lines_within n 0 (wrap_text input room n 0) ≡ true
    → lines_within n n (wrap_text input room n 0) ≡ true
unfolding wrap_text starts_line
starts_line-within [] room n e within = refl
starts_line-within (c ∷ input) zero n e within = refl
starts_line-within (c ∷ input) (suc room) n e within =
    let step = wrap_on c input room n 0 (breaks-newline n 0 c room input e) in
    let rest = wrap_text input room n (next_count n 0 c) in
    let column : lines_within n 0 (c ∷ rest) ≡ lines_within n n (c ∷ rest) = rw e refl in
    ap (lines_within n n) step ∙ sym column ∙ sym (ap (lines_within n 0) step) ∙ within

-- The step at the end of a full line.
wrap_at_end :
    (c : ℕ) (input : List ℕ) (room n count : ℕ)
    → count < n
    → (c == 10) ≡ false
    → leb n (count + 1) ≡ true
    → ((k : ℕ) → lines_within n 0 (wrap_text input k n 0) ≡ true)
    → lines_within n count (wrap_text (c ∷ input) (suc room) n count) ≡ true
wrap_at_end c input room n count h other full rest =
    let last : count + 1 ≡ n = ground arith in
    let fits : leb (count + 1) n ≡ true = ground arith in
    let zero_next = next_count-full n count c other full in
    let test = breaks-full n count c room input other full in
    elim (Bool-cases (starts_line input)) [
      | inl starts ↦
          let b : breaks n count c input room ≡ false = test ∙ rw starts refl in
          ap (lines_within n count) (wrap_on c input room n count b)
          ∙ rw (other, fits, last, zero_next) (starts_line-within input room n starts (rest room))
      | inr goes ↦ elim (Bool-cases (ltb 0 room)) [
        | inl some_room ↦
            let b : breaks n count c input room ≡ true = test ∙ rw (goes, some_room) refl in
            ap (lines_within n count) (wrap_break c input room n count b)
            ∙ rw (other, fits, zero_next) (rest (room - 1))
        | inr none_left ↦
            let b : breaks n count c input room ≡ false = test ∙ rw (goes, none_left) refl in
            let z : room ≡ 0 = ground arith in
            ap (lines_within n count) (wrap_on c input room n count b)
            ∙ rw (other, fits, z, wrap_full input n (next_count n count c)) refl
      ]
    ]

-- Of a text that `wrap_text` cuts, no line is longer than the limit, which is not 0: at the start, or
-- with `count` characters of the line before it.
pub wrap_text-lines_within :
    (input : List ℕ) (room n count : ℕ)
    → count < n
    → lines_within n count (wrap_text input room n count) ≡ true
wrap_text-lines_within [] room n count h = ap (lines_within n count) (wrap_nil room n count)
wrap_text-lines_within (c ∷ input) zero n count h =
    ap (lines_within n count) (wrap_full (c ∷ input) n count)
wrap_text-lines_within (c ∷ input) (suc room) n count h = elim (Bool-cases (c == 10)) [
  | inl newline ↦
      ap (lines_within n count)
        (wrap_on c input room n count (breaks-newline n count c room input newline))
      ∙ rw (newline, next_count-newline n count c newline)
          (wrap_text-lines_within input room n 0 (omega arith))
  | inr other ↦ elim (Bool-cases (leb n (count + 1))) [
    | inl full ↦
        wrap_at_end c input room n count h other full
          (λ k. wrap_text-lines_within input k n 0 (omega arith))
    | inr inside ↦
        let fits : leb (count + 1) n ≡ true = ground arith in
        ap (lines_within n count)
          (wrap_on c input room n count (breaks-inside n count c room input other inside))
        ∙ rw (other, fits, next_count-inside n count c other inside)
            (wrap_text-lines_within input room n (count + 1) (ground arith))
  ]
]
