-- ===== src/Mouse.antt =====
-- The interrupt handler of source/kernel/drivers/mouse.c and `clamp` of source/kernel/libs/math.c.
-- A step is one interrupt with the byte that is read from the data port. The size of the screen is
-- the parameters `width` and `height`.
pub mod Packets
mod Tests
use waffle_os.Common.{
  ℕ, suc, ◌+◌, ◌-◌, ◌/◌, ◌%◌, Bool, true, false, ◌&&◌, List, [], ◌∷◌, ltb, ◌==◌, if◌then◌else◌, set,
  get_or, ℤ, pos, sub_ℕ, ltb_ℤ, ◌+ℤ◌, ◌-ℤ◌, negsuc,
}

pub record MouseState : Type 0 where
  pub x : ℤ
  pub y : ℤ
  pub buttons : ℕ

pub record Driver : Type 0 where
  pub mouse_state : MouseState
  pub mouse_cycle : ℕ
  pub mouse_bytes : List ℕ

unfoldable pub clamp : ℤ → ℤ → ℤ → ℤ
clamp value low high = if ltb_ℤ value low then low else if ltb_ℤ high value then high else value

-- `(int8_t)b`
abbrev pub int8 : ℕ → ℤ
int8 b = if ltb b 128 then pos b else negsuc (255 - b)

-- `data & 0x08`
abbrev pub starts_packet : ℕ → Bool
starts_packet byte = byte / 8 % 2 == 1

module _ (width height : ℕ) where
  -- The body of `if (mouse_cycle == 3)`.
  pub process_packet : Driver → Driver
  unfolding clamp ◌+ℤ◌ ◌-ℤ◌
  process_packet d = record {
    mouse_state = record {
      x = clamp (d.mouse_state.x +ℤ int8 (get_or d.mouse_bytes 1 0)) (pos 0) (sub_ℕ width 1);
      y = clamp (d.mouse_state.y -ℤ int8 (get_or d.mouse_bytes 2 0)) (pos 0) (sub_ℕ height 1);
      buttons = get_or d.mouse_bytes 0 0 % 8;
    };
    mouse_cycle = 0;
    mouse_bytes = d.mouse_bytes;
  }

  -- `mouse_bytes[mouse_cycle] = data; mouse_cycle++;`, and the packet once it is complete.
  pub store_byte : Driver → ℕ → Driver
  unfolding process_packet
  store_byte d byte =
      let d' : Driver = record d {
        mouse_cycle = d.mouse_cycle + 1;
        mouse_bytes = set d.mouse_bytes d.mouse_cycle byte;
      } in
      if d'.mouse_cycle == 3 then process_packet d' else d'

  -- The flag says whether the handler reaches `send_eoi(12)`.
  pub mouse_handler : Driver → ℕ → Driver × Bool
  unfolding store_byte
  mouse_handler d byte =
      if d.mouse_cycle == 0 && not_start byte then (d, false) else (store_byte d byte, true)
    where
      not_start : ℕ → Bool
      not_start b = if starts_packet b then false else true

  -- The state after the interrupts for the bytes `stream`.
  pub receive : Driver → List ℕ → Driver
  unfolding mouse_handler
  receive d [] = d
  receive d (byte ∷ stream) = receive (mouse_handler d byte).0 stream

  -- How many of the interrupts for `stream` end in `send_eoi(12)`.
  pub acknowledged : Driver → List ℕ → ℕ
  unfolding mouse_handler
  acknowledged d [] = 0
  acknowledged d (byte ∷ stream) =
      let (d', eoi) = mouse_handler d byte in
      let rest = acknowledged d' stream in if eoi then suc rest else rest
