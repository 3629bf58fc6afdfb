-- ===== src/Mouse/Tests.antt =====
-- The driver on a screen of 320 by 200.
use waffle_os.Common.{[], ◌∷◌, pos, arith}
use waffle_os.Mouse.{MouseState, receive}
use waffle_os.Mouse.Packets.{IsValid, idle, receive-keeps_IsValid}

-- The initial state of the driver.
abbrev centre : MouseState
centre = record { x = pos 160; y = pos 100; buttons = 0 }

centre-IsValid : IsValid 320 200 (idle centre 0 0 0)
centre-IsValid = omega arith

receive-keeps_IsValid_example :
    IsValid 320 200 (receive 320 200 (idle centre 0 0 0) (9 ∷ 100 ∷ 200 ∷ 0 ∷ []))
receive-keeps_IsValid_example =
    receive-keeps_IsValid 320 200 (idle centre 0 0 0) (9 ∷ 100 ∷ 200 ∷ 0 ∷ []) (omega arith)
      (omega arith) centre-IsValid
