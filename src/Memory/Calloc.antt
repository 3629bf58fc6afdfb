-- ===== src/Memory/Calloc.antt =====
-- `calloc` of source/kernel/core/memory.c, over the chain of blocks and the bytes of the memory.
mod Tests
use mathlib.Core.List.{Perm}
use waffle_os.Common.{ℕ, ◌+◌, ◌≤◌, ◌<◌, ◌≡◌, List, ◌∷◌, Option, none, some, arith, mul32, subst}
use waffle_os.Memory.Heap.{Block, malloc, header_size, block_size}
use waffle_os.Memory.Heap.Alloc.{Granted, live}
use waffle_os.Memory.Bytes.{Mem8, memset}
use waffle_os.Memory.Bytes.Fill.{filled}

pub record HeapBytes : Type 0 where
  pub chain : List Block
  pub bytes : Mem8

-- `if (result) memset(result, 0, total_size); return result;`
clear : ℕ → Option ℕ × List Block → HeapBytes → Option ℕ × HeapBytes
clear total_size (none, chain) s = (none, record s { chain = chain })
clear total_size (some p, chain) s =
    (some p, record { chain = chain; bytes = memset p 0 total_size s.bytes })

-- `total_size` is a `size_t`: the product wraps.
pub calloc : ℕ → ℕ → ℕ → HeapBytes → Option ℕ × HeapBytes
unfolding clear
calloc base num_items size s =
    let total_size = mul32 num_items size in clear total_size (malloc base total_size s.chain) s

-- The payload that `calloc` hands out for `total` bytes: it is new, large enough for these and at
-- most 28 bytes larger, the first `total` bytes are 0 and no other byte has changed.
abbrev pub Zeroed : ℕ → ℕ → HeapBytes → HeapBytes → Type 0
Zeroed total p before after =
    Granted total p before.chain after.chain × (after.bytes ≡ filled p 0 total before.bytes)

-- What a call leaves: no block, and the bytes as they were, or a payload that is filled with zeros.
abbrev pub Cleared : ℕ → HeapBytes → Option ℕ × HeapBytes → Type 0
Cleared total before (none, after) = after.bytes ≡ before.bytes
Cleared total before (some p, after) = Zeroed total p before after
