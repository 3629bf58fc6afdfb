-- ===== src/Keyboard/Tests.antt =====
-- Some keys on a keyboard whose table is followed by zeros.
use waffle_os.Common.{ℕ, ◌≡◌, refl, List, [], ◌∷◌, ◌++◌, true, false, some, replicate, codes, arith}
use waffle_os.Keyboard.{Keyboard, receive, read_line, scancode_to_ascii, ascii_of}
use waffle_os.Keyboard.Editing.{IsLine, edited_all, receive-IsLine}
use waffle_os.Keyboard.Reading.{Read, read_line-Read}

abbrev zeros : ℕ → ℕ
zeros n = 0

abbrev idle : Keyboard
idle = record { input_buffer = replicate 256 0; buffer_index = 0; line_ready = false }

-- h, j, backspace, i, its release, and an interrupt without data.
abbrev keys : List (ℕ × ℕ)
keys = (1, 35) ∷ (1, 36) ∷ (1, 14) ∷ (1, 23) ∷ (1, 151) ∷ (0, 23) ∷ []

keys_edit : edited_all zeros keys [] ≡ codes "hi"
unfolding scancode_to_ascii ascii_of
keys_edit = refl

receive-IsLine_example : IsLine (edited_all zeros keys []) (receive zeros true keys idle).0
receive-IsLine_example =
    receive-IsLine zeros keys [] idle
      (record { index = refl; small = omega arith; room = refl; chars = refl })

read_line-Read_example :
    (read : Keyboard) × (read_line zeros true (keys ++ (1, 28) ∷ (1, 30) ∷ []) idle
      ≡ some (read, (1, 30) ∷ []))
    × Read (edited_all zeros keys []) read
read_line-Read_example =
    read_line-Read zeros keys ((1, 30) ∷ []) idle refl
      (refl, (refl, (refl, (refl, (refl, (refl, tt))))))
