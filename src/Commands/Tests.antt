-- ===== src/Commands/Tests.antt =====
-- Lines on a small table of commands.
use waffle_os.Common.{ℕ, ◌≡◌, List, [], ◌∷◌, replicate, codes, arith}
use waffle_os.Commands.{Command, execute_command, runs}
use waffle_os.Commands.Tokens.{line_text}
use waffle_os.Commands.Dispatch.{registered, execute_command-runs}

abbrev two_words : List (ℕ × List ℕ)
two_words = (2, codes "echo") ∷ (3, codes "hi") ∷ []

abbrev junk : List ℕ
junk = replicate 256 7

abbrev clear_command : Command
clear_command = record { name = codes "clear"; func = 1; help = [] }

abbrev echo_command : Command
echo_command = record { name = codes "echo"; func = 2; help = [] }

execute_command-runs_example :
    execute_command junk
      (registered junk (clear_command ∷ echo_command ∷ []) [])
      (line_text two_words 0)
    ≡ runs 2 (codes "echo" ∷ codes "hi" ∷ [])
execute_command-runs_example =
    execute_command-runs junk (clear_command ∷ []) echo_command [] 2 ((3, codes "hi") ∷ []) 0
      (omega arith) (omega arith) (ground arith) (omega arith) (ground arith) (omega arith)
      (omega arith)
