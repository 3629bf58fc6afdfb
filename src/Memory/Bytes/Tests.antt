-- ===== src/Memory/Bytes/Tests.antt =====
-- The byte routines on a memory whose byte at an address is the address.
use waffle_os.Common.{◌≡◌, refl, ◌%◌}
use waffle_os.Memory.Bytes.{Mem8, memset, memcpy}
use waffle_os.Memory.Bytes.Copy.{moved, memcpy-moved}
use waffle_os.Memory.Bytes.Fill.{filled, memset-filled}

abbrev ramp : Mem8
ramp a = a

-- Eleven bytes from an odd address: both ends and two words.
memset_long : memset 101 300 11 ramp 111 ≡ 44
unfolding memset
memset_long = refl

-- Overlapping regions, in both directions.
memcpy_up : memcpy 100 102 9 ramp 108 ≡ 110
unfolding memcpy
memcpy_up = refl

memcpy_down : memcpy 102 100 9 ramp 110 ≡ 108
unfolding memcpy
memcpy_down = refl

memset-filled_example : memset 101 300 11 ramp ≡ filled 101 (300 % 256) 11 ramp
memset-filled_example = memset-filled 101 300 11 ramp

memcpy-moved_example : memcpy 102 100 9 ramp ≡ moved 102 100 9 ramp
memcpy-moved_example = memcpy-moved 102 100 9 ramp
