-- ===== src/Commands.antt =====
-- source/kernel/core/cmd_executor.c: the table of commands, the tokens of a line and the dispatch. A
-- C string is the list of its characters. What is in `buffer` at the start is a parameter, and a
-- command's function is a number.
pub mod Tokens
pub mod Dispatch
pub mod Console
mod Tests
use waffle_os.Common.{
  ℕ, zero, suc, ◌≡◌, Bool, true, false, List, [], ◌∷◌, ◌++◌, Option, none, some, ltb, ◌==◌,
  if◌then◌else◌, ℤ, pos, negsuc, length, take, set, codes, ◌>>=◌,
}
use waffle_os.Strings.{strcmp, strncpy, find_end}
use waffle_os.Stdio.Format.{Arg, text}
use waffle_os.Stdio.Buffer.{vsnprintf}

pub record Command : Type 0 where
  pub name : List ℕ
  pub func : ℕ
  pub help : List ℕ

abbrev pub max_commands : ℕ
max_commands = 32

abbrev pub max_tokens : ℕ
max_tokens = 16

-- The string that an array holds.
unfoldable pub text_of : List ℕ → List ℕ
unfolding find_end
text_of buffer = take (find_end buffer) buffer

-- The characters that go to the console.
unfoldable pub console_printf : List ℕ → List ℕ → List Arg → Option (List ℕ)
unfolding text_of
console_printf buffer fmt args = do
  (count, bytes) ← vsnprintf buffer 256 fmt args
  some (text_of bytes)

-- The table, and what goes to the console.
unfoldable pub register_command : List ℕ → Command → List Command → List Command × Option (List ℕ)
unfolding console_printf
register_command buffer command commands =
    if ltb (length commands) max_commands
    then (commands ++ command ∷ [], some [])
    else (commands, console_printf buffer (codes "Error: Command table full!" ++ 13 ∷ 10 ∷ []) [])

-- `while (*token == ' ') token++;`
unfoldable pub skip_spaces : List ℕ → List ℕ
skip_spaces [] = []
skip_spaces (c ∷ token) = if c == b' ' then skip_spaces token else c ∷ token

-- The token that `while (*token && *token != ' ') token++;` passes, which a NUL then ends.
unfoldable pub first_word : List ℕ → List ℕ
first_word [] = []
first_word (c ∷ token) = if c == b' ' then [] else c ∷ first_word token

-- `token` behind that NUL.
unfoldable pub past_word : List ℕ → List ℕ
past_word [] = []
past_word (c ∷ token) = if c == b' ' then token else past_word token

-- `argv` from the place on that leaves room for as many tokens as the first argument says.
unfoldable pub tokenize : ℕ → List ℕ → List (List ℕ)
unfolding skip_spaces first_word past_word
tokenize zero token = []
tokenize (suc left) [] = []
tokenize (suc left) (c ∷ token) = elim (skip_spaces (c ∷ token)) [
  | [] ↦ []
  | d ∷ rest ↦ first_word (d ∷ rest) ∷ tokenize left (past_word (d ∷ rest))
]

-- `== 0`
abbrev pub is_zero : ℤ → Bool
is_zero (pos zero) = true
is_zero (pos (suc n)) = false
is_zero (negsuc n) = false

-- The first command of that name in the table.
unfoldable pub find_command : List ℕ → List Command → Option Command
find_command name [] = none
find_command name (command ∷ commands) =
    if is_zero (strcmp name command.name) then some command else find_command name commands

-- What a line leads to: a call of a function with its tokens, or what goes to the console.
pub data Executed : Type 0 where
  nothing : Executed
  runs : ℕ → List (List ℕ) → Executed
  unrecognised : Option (List ℕ) → Executed

-- `strncpy(buffer, input, 255); buffer[255] = '\0';`
unfoldable pub line_of : List ℕ → List ℕ → List ℕ
unfolding text_of
line_of buffer input = text_of (set (strncpy buffer input 255) 255 0)

unfoldable pub execute_tokens : List ℕ → List Command → List (List ℕ) → Executed
unfolding find_command console_printf
execute_tokens buffer commands [] = nothing
execute_tokens buffer commands (name ∷ args) = elim (find_command name commands) [
  | some command ↦ runs command.func (name ∷ args)
  | none ↦
      unrecognised
        (console_printf buffer (codes "Unrecognised command: %s" ++ 13 ∷ 10 ∷ []) (text name ∷ []))
]

unfoldable pub execute_command : List ℕ → List Command → List ℕ → Executed
unfolding line_of tokenize execute_tokens
execute_command buffer commands input =
    execute_tokens buffer commands (tokenize max_tokens (line_of buffer input))
