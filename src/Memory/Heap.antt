-- ===== src/Memory/Heap.antt =====
-- The allocator of source/kernel/core/memory.c: `init_memory`, `malloc`, `free` and
-- `merge_surrounding_free_blocks`. The chain of headers is the list of its blocks in `Next`
-- order, and `head == NULL` is the empty list. A block is named by the address of its header.
pub mod Invariant
pub mod Alloc
pub mod Release
pub mod Contract
pub mod RoundTrip
pub mod Runs
mod Tests
use waffle_os.Common.{
  ℕ, ◌+◌, ◌-◌, Bool, true, false, ◌&&◌, List, [], ◌∷◌, Option, none, some, ltb, leb, ◌==◌,
  if◌then◌else◌, add32, sub32,
}

pub record Block : Type 0 where
  pub addr : ℕ
  pub size : ℕ
  pub is_free : Bool

abbrev pub memory_size : ℕ
memory_size = 0x100000

abbrev pub block_size : ℕ
block_size = 16

-- sizeof(MemoryBlock) on i386: `size_t`, `uint8_t` with three bytes of padding, a pointer.
abbrev pub header_size : ℕ
header_size = 12

-- `base` is the address of the array `heap`.
pub init_memory : ℕ → List Block
init_memory base = record { addr = base; size = memory_size - header_size; is_free = true } ∷ []

-- `if (!head) init_memory();`
pub ensure_memory : ℕ → List Block → List Block
unfolding init_memory
ensure_memory base [] = init_memory base
ensure_memory base (b ∷ bs) = b ∷ bs

-- The body of the loop of `malloc` on a block that serves the request.
pub allocate : ℕ → Block → List Block → List Block
allocate size b rest =
    if ltb (add32 (add32 size header_size) block_size) b.size
    then record b { size = size; is_free = false } ∷ new_block ∷ rest
    else record b { is_free = false } ∷ rest
  where
    new_block : Block
    new_block = record {
      addr = b.addr + header_size + size;
      size = sub32 (sub32 b.size size) header_size;
      is_free = true;
    }

-- The loop of `malloc`: the first block that is free and large enough.
pub first_fit : ℕ → List Block → Option ℕ × List Block
unfolding allocate
first_fit size [] = (none, [])
first_fit size (b ∷ bs) =
    if b.is_free && leb size b.size
    then (some (b.addr + header_size), allocate size b bs)
    else let (result, rest) = first_fit size bs in (result, b ∷ rest)

unfoldable pub malloc : ℕ → ℕ → List Block → Option ℕ × List Block
unfolding first_fit ensure_memory
malloc base size chain = first_fit size (ensure_memory base chain)

-- `p->Size += sizeof(MemoryBlock) + c->Size; p->Next = c->Next;`
pub join : Block → Block → Block
join p c = record p { size = add32 p.size (add32 header_size c.size) }

-- `while (current->Next && current->Next->IsFree)`
pub absorb : Block → List Block → List Block
unfolding join
absorb c [] = c ∷ []
absorb c (n ∷ rest) = if n.is_free then absorb (join c n) rest else c ∷ n ∷ rest

-- `previous`, and the chain from `current` on.
pub merge_from : ℕ → Block → List Block → List Block
unfolding join absorb
merge_from block previous [] = previous ∷ []
merge_from block previous (current ∷ rest) =
    if current.addr == block
    then (if previous.is_free
        then absorb (join previous current) rest
        else previous ∷ absorb current rest)
    else previous ∷ merge_from block current rest

pub merge_surrounding_free_blocks : ℕ → List Block → List Block
unfolding merge_from absorb
merge_surrounding_free_blocks block [] = []
merge_surrounding_free_blocks block (current ∷ rest) =
    if current.addr == block then absorb current rest else merge_from block current rest

-- `block->IsFree = true`, `none` where no block of the chain has that address: the write then
-- hits memory that is no header.
pub mark_free : ℕ → List Block → Option (List Block)
mark_free block [] = none
mark_free block (b ∷ bs) =
    if b.addr == block
    then some (record b { is_free = true } ∷ bs)
    else elim (mark_free block bs) [ none ↦ none | some rest ↦ some (b ∷ rest) ]

pub free : ℕ → List Block → Option (List Block)
unfolding mark_free merge_surrounding_free_blocks
free ptr chain = if ptr == 0 then some chain else elim (mark_free (ptr - header_size) chain) [
  | none ↦ none
  | some marked ↦ some (merge_surrounding_free_blocks (ptr - header_size) marked)
]
