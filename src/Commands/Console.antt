-- ===== src/Commands/Console.antt =====
-- What source/kernel/core/cmd_executor.c prints for a line whose command is not in the table.
use waffle_os.Common.{
  ℕ, zero, suc, ◌≤◌, ◌<◌, ◌≡◌, refl, false, List, [], ◌∷◌, ◌++◌, none, some, ◌==◌, length, take,
  get_or, arith, ap, ◌∙◌, min, codes,
}
use waffle_os.Strings.{find_end, strcmp}
use waffle_os.Strings.Order.{NoNul, strcmp-zero}
use waffle_os.Stdio.Format.{Arg, Machine, text, start, run}
use waffle_os.Stdio.Format.Laws.{stuck}
use waffle_os.Stdio.Buffer.{vsnprintf-Printed}
use waffle_os.Commands.{
  Command, text_of, console_printf, find_command, is_zero, unrecognised, execute_tokens,
  execute_command,
}
use waffle_os.Commands.Tokens.{line_text, words_of, IsLine}
use waffle_os.Commands.Dispatch.{NoneNamed, is_zero-ne, tokens_of-line}

-- An array that begins with the characters and a NUL holds them as its string.
text_of-take :
    (n : ℕ) (chars bytes : List ℕ)
    → NoNul chars
    → n < length bytes
    → n ≤ length chars
    → ((i : ℕ) → i < n → get_or bytes i 0 ≡ get_or chars i 0)
    → get_or bytes n 0 ≡ 0
    → text_of bytes ≡ take n chars
unfolding text_of find_end
text_of-take n chars [] p long cut same ended = absurd (omega arith)
text_of-take zero chars (b ∷ bytes) p long cut same ended = rw ended refl
text_of-take (suc n) [] (b ∷ bytes) p long cut same ended = absurd (omega arith)
text_of-take (suc n) (c ∷ chars) (b ∷ bytes) p long cut same ended =
    let first : b ≡ c = same 0 (omega arith) in
    let more : (b == 0) ≡ false = ground arith in
    rw more (
      ap (λ t. b ∷ t)
        (text_of-take n chars bytes p.1 (omega arith) (omega arith)
          (λ i h. same (suc i) (omega arith)) ended)
      ∙ ap (λ x. x ∷ take n chars) first)

take-min : (n : ℕ) (s : List ℕ) → take (min (length s) n) s ≡ take n s
take-min zero s = let none_left : min (length s) 0 ≡ 0 = omega arith in ap (λ k. take k s) none_left
take-min (suc n) [] =
    let none_left : min 0 (suc n) ≡ 0 = omega arith in ap (λ k. take {A = ℕ} k []) none_left
take-min (suc n) (c ∷ s) =
    let next : min (suc (length s)) (suc n) ≡ suc (min (length s) n) = omega arith in
    ap (λ k. take k (c ∷ s)) next ∙ ap (λ t. c ∷ t) (take-min n s)

-- Text that is formatted goes to the console, cut at 255 characters.
console_printf-take :
    (buffer fmt : List ℕ) (args : List Arg) {m : Machine} {chars : List ℕ}
    → length buffer ≡ 256
    → NoNul chars
    → run (start args) fmt ≡ some (m, chars)
    → console_printf buffer fmt args ≡ some (take 255 chars)
unfolding console_printf
console_printf-take buffer fmt args {chars = chars} size p ran =
    let (r, shows, printed) =
      vsnprintf-Printed buffer 256 fmt args (omega arith) (omega arith) ran in
    let long = printed.same_length in
    rw shows (
      ap some (
        text_of-take (min (length chars) 255) chars r.1 p (omega (arith, long)) (omega arith)
          (λ i h. printed.prefix i (omega arith) (omega arith)) printed.ended
        ∙ take-min 255 chars))

find_command-none :
    (name : List ℕ) (commands : List Command)
    → NoNul name
    → NoneNamed name commands
    → find_command name commands ≡ none
unfolding find_command
find_command-none name [] p free = refl
find_command-none name (c ∷ commands) p ((q, differs), free) =
    let other : is_zero (strcmp name c.name) ≡ false =
      is_zero-ne (strcmp name c.name) (λ z. differs ((strcmp-zero name c.name p q).0 z)) in
    rw other (find_command-none name commands p free)

abbrev pub apology : List ℕ
apology = codes "Unrecognised command: "

run_unrecognised :
    (name : List ℕ)
    → run (start (text name ∷ [])) (codes "Unrecognised command: %s" ++ 13 ∷ 10 ∷ [])
      ≡ some (stuck [], apology ++ (name ++ 13 ∷ 10 ∷ []))
unfolding run start
run_unrecognised name = refl

NoNul-append : (a b : List ℕ) → NoNul a → NoNul b → NoNul (a ++ b)
NoNul-append [] b p q = q
NoNul-append (c ∷ a) b p q = (p.0, NoNul-append a b p.1 q)

execute_tokens-none :
    (buffer name : List ℕ) (args : List (List ℕ)) (commands : List Command) (message : List ℕ)
    → find_command name commands ≡ none
    → console_printf buffer (codes "Unrecognised command: %s" ++ 13 ∷ 10 ∷ []) (text name ∷ [])
      ≡ some message
    → execute_tokens buffer commands (name ∷ args) ≡ unrecognised (some message)
unfolding execute_tokens
execute_tokens-none buffer name args commands message e shows =
    rw (execute_tokens, e) (ap unrecognised shows)

-- A line of at most 255 characters, without a NUL, whose first word is not the name of a command of
-- the table: nothing is called, and the console gets a message with that word and a line break, cut
-- at 255 characters.
execute_command-unrecognised :
    (buffer : List ℕ) (commands : List Command) (spaces : ℕ) (name : List ℕ)
    (words : List (ℕ × List ℕ)) (trailing : ℕ)
    → length buffer ≡ 256
    → NoneNamed name commands
    → NoNul name
    → IsLine ((spaces, name) ∷ words)
    → NoNul (line_text ((spaces, name) ∷ words) trailing)
    → length (line_text ((spaces, name) ∷ words) trailing) ≤ 255
    → execute_command buffer commands (line_text ((spaces, name) ∷ words) trailing)
      ≡ unrecognised (some (take 255 (apology ++ (name ++ 13 ∷ 10 ∷ []))))
unfolding execute_command
execute_command-unrecognised buffer commands spaces name words trailing size free p line nul short =
    let message = apology ++ (name ++ 13 ∷ 10 ∷ []) in
    let clean : NoNul message =
      NoNul-append apology (name ++ 13 ∷ 10 ∷ []) (omega arith)
        (NoNul-append name (13 ∷ 10 ∷ []) p (omega arith)) in
    let prints = console_printf-take buffer _ (text name ∷ []) size clean (run_unrecognised name) in
    ap (execute_tokens buffer commands)
      (tokens_of-line buffer ((spaces, name) ∷ words) trailing size line nul short)
    ∙ execute_tokens-none buffer name (take 15 (words_of words)) commands (take 255 message)
        (find_command-none name commands p free) prints
