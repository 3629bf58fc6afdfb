-- ===== src/Mouse/Packets.antt =====
-- The packet protocol of source/kernel/drivers/mouse.c.
use waffle_os.Common.{
  ℕ, ◌+◌, ◌%◌, ◌<◌, ◌≡◌, inl, inr, refl, Bool, true, false, List, [], ◌∷◌, ◌==◌, set, get_or,
  length, length-set, ℤ, pos, sub_ℕ, ◌+ℤ◌, ◌-ℤ◌, ◌≤ℤ◌, arith, Bool-cases, ap,
}
use waffle_os.Mouse.{
  MouseState, Driver, clamp, int8, starts_packet, process_packet, store_byte, mouse_handler,
  receive, acknowledged,
}

-- `clamp` stays in its range, and leaves alone what is in it.
pub clamp_bounds :
    (v low high : ℤ) → low ≤ℤ high → (low ≤ℤ clamp v low high) × (clamp v low high ≤ℤ high)
unfolding clamp
clamp_bounds v low high h = ground arith

-- The pointer is on the screen, and the bytes of a packet that has begun are in their array.
pub record IsValid (width height : ℕ) (d : Driver) : Type 0 where
  pub left : pos 0 ≤ℤ d.mouse_state.x
  pub right : d.mouse_state.x ≤ℤ sub_ℕ width 1
  pub top : pos 0 ≤ℤ d.mouse_state.y
  pub bottom : d.mouse_state.y ≤ℤ sub_ℕ height 1
  pub cycle : d.mouse_cycle < 3
  pub room : length d.mouse_bytes ≡ 3
  pub buttons : d.mouse_state.buttons < 8

module _ (width height : ℕ) (wide : 0 < width) (high : 0 < height) where
  process_packet-IsValid :
      (d : Driver) → length d.mouse_bytes ≡ 3 → IsValid width height (process_packet width height d)
  unfolding process_packet
  process_packet-IsValid d room =
      let bx =
        clamp_bounds (d.mouse_state.x +ℤ int8 (get_or d.mouse_bytes 1 0)) (pos 0) (sub_ℕ width 1)
          (ground arith) in
      let by =
        clamp_bounds (d.mouse_state.y -ℤ int8 (get_or d.mouse_bytes 2 0)) (pos 0) (sub_ℕ height 1)
          (ground arith) in
      record {
        left = bx.0;
        right = bx.1;
        top = by.0;
        bottom = by.1;
        cycle = omega arith;
        room = room;
        buttons = omega arith;
      }

  store_byte-IsValid :
      (d : Driver) (byte : ℕ)
      → IsValid width height d
      → IsValid width height (store_byte width height d byte)
  unfolding store_byte
  store_byte-IsValid d byte v =
      let room : length (set d.mouse_bytes d.mouse_cycle byte) ≡ 3 =
        omega (arith, length-set d.mouse_bytes d.mouse_cycle byte) in
      let full : Driver = record d {
        mouse_cycle = d.mouse_cycle + 1;
        mouse_bytes = set d.mouse_bytes d.mouse_cycle byte;
      } in
      elim (Bool-cases (d.mouse_cycle + 1 == 3)) [
        | inl whole ↦ rw whole (process_packet-IsValid full room)
        | inr part ↦ rw part (record {
          left = v.left;
          right = v.right;
          top = v.top;
          bottom = v.bottom;
          cycle = ground arith;
          room = room;
          buttons = v.buttons;
        })
      ]

  -- On a screen that is not empty every interrupt keeps the pointer on the screen and the packet
  -- within its array.
  pub mouse_handler-IsValid :
      (d : Driver) (byte : ℕ)
      → IsValid width height d
      → IsValid width height (mouse_handler width height d byte).0
  unfolding mouse_handler
  mouse_handler-IsValid d byte v = ground (arith, store_byte-IsValid d byte)

  receive-IsValid :
      (d : Driver) (stream : List ℕ)
      → IsValid width height d
      → IsValid width height (receive width height d stream)
  unfolding receive
  receive-IsValid d [] v = v
  receive-IsValid d (byte ∷ stream) v =
      receive-IsValid (mouse_handler width height d byte).0 stream (mouse_handler-IsValid d byte v)

-- On a screen that is not empty, every stream of bytes keeps the pointer on the screen, the packet
-- within its array of three bytes and the buttons below 8.
pub receive-keeps_IsValid :
    (width height : ℕ) (d : Driver) (stream : List ℕ)
    → 0 < width
    → 0 < height
    → IsValid width height d
    → IsValid width height (receive width height d stream)
receive-keeps_IsValid width height d stream wide high v =
    receive-IsValid width height wide high d stream v

-- The driver between two packets, with the bytes `b0`, `b1` and `b2` in its array.
abbrev pub idle : MouseState → ℕ → ℕ → ℕ → Driver
idle s b0 b1 b2 = record { mouse_state = s; mouse_cycle = 0; mouse_bytes = b0 ∷ b1 ∷ b2 ∷ [] }

handler_start :
    (width height : ℕ) (d : Driver) (byte : ℕ)
    → starts_packet byte ≡ true
    → mouse_handler width height d byte ≡ (store_byte width height d byte, true)
unfolding mouse_handler
handler_start width height d byte h = ground arith

-- Between two packets, three bytes of which the first starts a packet move the pointer by the two
-- signed bytes, y upwards and both clamped to the screen, and set the buttons to the low three bits.
receive_packet :
    (width height : ℕ) (s : MouseState) (c0 c1 c2 b0 b1 b2 : ℕ)
    → starts_packet b0 ≡ true
    → receive width height (idle s c0 c1 c2) (b0 ∷ b1 ∷ b2 ∷ [])
      ≡ idle
          (record {
            x = clamp (s.x +ℤ int8 b1) (pos 0) (sub_ℕ width 1);
            y = clamp (s.y -ℤ int8 b2) (pos 0) (sub_ℕ height 1);
            buttons = b0 % 8;
          })
          b0
          b1
          b2
unfolding receive
receive_packet width height s c0 c1 c2 b0 b1 b2 h =
    ap (λ (r : Driver × Bool). receive width height r.0 (b1 ∷ b2 ∷ []))
      (handler_start width height (idle s c0 c1 c2) b0 h)

abbrev pub Noise : List ℕ → Type 0
Noise [] = Unit
Noise (byte ∷ stream) = (starts_packet byte ≡ false) × Noise stream

-- Between two packets, bytes that start no packet change nothing, and none of their interrupts is
-- acknowledged: no end of interrupt is sent for them.
receive-Noise :
    (width height : ℕ) (d : Driver) (stream : List ℕ)
    → d.mouse_cycle ≡ 0
    → Noise stream
    → (receive width height d stream ≡ d) × (acknowledged width height d stream ≡ 0)
unfolding receive acknowledged
receive-Noise width height d [] z n = (refl, refl)
receive-Noise width height d (byte ∷ stream) z n =
    ground (arith, receive-Noise width height d stream z n.1)
