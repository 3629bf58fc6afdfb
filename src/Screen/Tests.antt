-- ===== src/Screen/Tests.antt =====
-- A screen of zeros with the cursor in its last row.
use waffle_os.Common.{arith, codes}
use waffle_os.Screen.{Screen, puts}
use waffle_os.Screen.Cursor.{IsOn, puts-IsOn}

abbrev last_row : Screen
last_row = record { bytes = λ a. 0; screen_x = 78; screen_y = 24 }

puts-IsOn_example : IsOn (puts (codes "scroll") last_row)
puts-IsOn_example = puts-IsOn (codes "scroll") last_row (omega arith)
