-- ===== src/Commands/Dispatch.antt =====
-- What a line does (source/kernel/core/cmd_executor.c): the copy of the input in the buffer, the table
-- as `register_command` fills it, and the call of the command.
use waffle_os.Common.{
  ℕ, zero, suc, ◌+◌, ◌≤◌, ◌≡◌, ◌≢◌, refl, true, false, List, [], ◌∷◌, ◌++◌, some, ◌==◌, ltb, ℤ, pos,
  negsuc, length, take, take_all, drop, set, arith, ap, sym, subst, ◌∙◌, length-append,
  append_assoc, append-nil, Bool-cases, inl, inr,
}
use waffle_os.Strings.{strcmp, strncpy, find_end}
use waffle_os.Strings.Order.{NoNul, strcmp-zero}
use waffle_os.Strings.Copy.{padded, strncpy-eq, set-append}
use waffle_os.Commands.{
  Command, text_of, register_command, max_commands, tokenize, max_tokens, find_command, is_zero,
  line_of, runs, execute_tokens, execute_command,
}
use waffle_os.Commands.Tokens.{line_text, words_of, IsLine, tokenize-words_of}

text_of-padded :
    (n : ℕ) (src rest : List ℕ) → NoNul src → text_of (padded n src ++ 0 ∷ rest) ≡ take n src
unfolding text_of find_end
text_of-padded zero src rest p = refl
text_of-padded (suc n) [] rest p = refl
text_of-padded (suc n) (c ∷ src) rest p =
    let more : (c == 0) ≡ false = ground arith in
    rw more (ap (λ t. c ∷ t) (text_of-padded n src rest p.1))

length-padded : (n : ℕ) (src : List ℕ) → length (padded n src) ≡ n
length-padded zero src = refl
length-padded (suc n) [] = ap suc (length-padded n [])
length-padded (suc n) (c ∷ src) = ap suc (length-padded n src)

last_byte : (n : ℕ) (buffer : List ℕ) → length buffer ≡ suc n → (x : ℕ) × (drop n buffer ≡ x ∷ [])
last_byte n [] e = absurd (omega arith)
last_byte zero (x ∷ []) e = (x, refl)
last_byte zero (x ∷ y ∷ buffer) e = absurd (omega arith)
last_byte (suc n) (x ∷ buffer) e = last_byte n buffer (omega arith)

-- The buffer holds the input, cut at 255 characters.
line_of-take :
    (buffer input : List ℕ)
    → length buffer ≡ 256
    → NoNul input
    → line_of buffer input ≡ take 255 input
unfolding line_of
line_of-take buffer input e p =
    let (x, last) = last_byte 255 buffer e in
    let copied : strncpy buffer input 255 ≡ padded 255 input ++ x ∷ [] =
      strncpy-eq buffer input 255 (omega arith) ∙ ap (λ t. padded 255 input ++ t) last in
    let at : 255 ≡ length (padded 255 input) = sym (length-padded 255 input) in
    let ended : set (padded 255 input ++ x ∷ []) 255 0 ≡ padded 255 input ++ 0 ∷ [] =
      ap (λ i. set (padded 255 input ++ x ∷ []) i 0) at ∙ set-append (padded 255 input) x [] 0 in
    ap (λ b. text_of (set b 255 0)) copied ∙ ap text_of ended ∙ text_of-padded 255 input [] p

-- The table after some commands have been registered in order.
abbrev pub registered : List ℕ → List Command → List Command → List Command
registered buffer [] commands = commands
registered buffer (c ∷ cs) commands = registered buffer cs (register_command buffer c commands).0

registered-append :
    (buffer : List ℕ) (cs commands : List Command)
    → length commands + length cs ≤ max_commands
    → registered buffer cs commands ≡ commands ++ cs
unfolding register_command
registered-append buffer [] commands h = sym (append-nil commands)
registered-append buffer (c ∷ cs) commands h =
    let room : ltb (length commands) max_commands ≡ true = ground arith in
    let longer = length-append commands (c ∷ []) in
    rw room (
      registered-append buffer cs (commands ++ c ∷ []) (omega (arith, longer))
      ∙ append_assoc commands (c ∷ []) cs)

-- No command of the list has that name.
abbrev pub NoneNamed : List ℕ → List Command → Type 0
NoneNamed name [] = Unit
NoneNamed name (c ∷ cs) = (NoNul c.name × (name ≢ c.name)) × NoneNamed name cs

is_zero-eq : (z : ℤ) → is_zero z ≡ true → z ≡ pos 0
is_zero-eq (pos zero) e = refl
is_zero-eq (pos (suc n)) e = cc
is_zero-eq (negsuc n) e = cc

pub is_zero-ne : (z : ℤ) → z ≢ pos 0 → is_zero z ≡ false
is_zero-ne z h = elim (Bool-cases (is_zero z)) [ inl e ↦ absurd (h (is_zero-eq z e)) | inr e ↦ e ]

find_command-append :
    (name : List ℕ) (before : List Command) (command : Command) (others : List Command)
    → NoNul name
    → NoneNamed name before
    → name ≡ command.name
    → find_command name (before ++ command ∷ others) ≡ some command
unfolding find_command
find_command-append name [] command others p free e =
    let q : NoNul command.name = subst NoNul e p in
    let zero_of : strcmp name command.name ≡ pos 0 = (strcmp-zero name command.name p q).1 e in
    rw zero_of refl
find_command-append name (c ∷ before) command others p ((q, differs), free) e =
    let other : is_zero (strcmp name c.name) ≡ false =
      is_zero-ne (strcmp name c.name) (λ z. differs ((strcmp-zero name c.name p q).0 z)) in
    rw other (find_command-append name before command others p free e)

-- The tokens of a line that fits the buffer.
pub tokens_of-line :
    (buffer : List ℕ) (words : List (ℕ × List ℕ)) (trailing : ℕ)
    → length buffer ≡ 256
    → IsLine words
    → NoNul (line_text words trailing)
    → length (line_text words trailing) ≤ 255
    → tokenize max_tokens (line_of buffer (line_text words trailing)) ≡ take 16 (words_of words)
tokens_of-line buffer words trailing size line nul short =
    ap (tokenize max_tokens) (
      line_of-take buffer (line_text words trailing) size nul
      ∙ take_all 255 (line_text words trailing) short)
    ∙ tokenize-words_of 16 words trailing line

execute_tokens-some :
    (buffer name : List ℕ) (args : List (List ℕ)) (commands : List Command) (command : Command)
    → find_command name commands ≡ some command
    → execute_tokens buffer commands (name ∷ args) ≡ runs command.func (name ∷ args)
unfolding execute_tokens
execute_tokens-some buffer name args commands command e = rw (execute_tokens, e) refl

-- A line of at most 255 characters, without a NUL, whose first word is the name of a registered
-- command: where at most 32 commands have been registered, and none of that name before it, the
-- function of that command is called with the words of the line, the first 16 of them.
pub execute_command-runs :
    (buffer : List ℕ) (before : List Command) (command : Command) (others : List Command)
    (spaces : ℕ) (words : List (ℕ × List ℕ)) (trailing : ℕ)
    → length buffer ≡ 256
    → length (before ++ command ∷ others) ≤ 32
    → NoneNamed command.name before
    → NoNul command.name
    → IsLine ((spaces, command.name) ∷ words)
    → NoNul (line_text ((spaces, command.name) ∷ words) trailing)
    → length (line_text ((spaces, command.name) ∷ words) trailing) ≤ 255
    → execute_command buffer
        (registered buffer (before ++ command ∷ others) [])
        (line_text ((spaces, command.name) ∷ words) trailing)
      ≡ runs command.func (command.name ∷ take 15 (words_of words))
unfolding execute_command
execute_command-runs buffer before command others spaces words trailing size room free p line nul
      short =
    let table = registered buffer (before ++ command ∷ others) [] in
    let finds : find_command command.name table ≡ some command =
      ap (find_command command.name)
        (registered-append buffer (before ++ command ∷ others) [] (omega (arith, room)))
      ∙ find_command-append command.name before command others p free refl in
    ap (execute_tokens buffer table)
      (tokens_of-line buffer ((spaces, command.name) ∷ words) trailing size line nul short)
    ∙ execute_tokens-some buffer command.name (take 15 (words_of words)) table command finds
