-- ===== src/Memory/Heap/Invariant.antt =====
-- The invariant of the chain of blocks (source/kernel/core/memory.c): it tiles the heap, and no
-- two neighbours are free.
use waffle_os.Common.{ℕ, ◌+◌, ◌≤◌, ◌≡◌, Bool, false, ◌&&◌, List, [], ◌∷◌, arith}
use waffle_os.Memory.Heap.{Block, memory_size, header_size, init_memory, allocate}

-- The blocks follow one another without gap or overlap from `a` up to `e`.
abbrev pub Tiled : ℕ → ℕ → List Block → Type 0
Tiled a e [] = a ≡ e
Tiled a e (b ∷ bs) = (b.addr ≡ a) × Tiled (b.addr + header_size + b.size) e bs

abbrev pub head_free : List Block → Bool
head_free [] = false
head_free (b ∷ bs) = b.is_free

-- No free block is followed by a free block.
abbrev pub Coalesced : List Block → Type 0
Coalesced [] = Unit
Coalesced (b ∷ bs) = ((b.is_free && head_free bs) ≡ false) × Coalesced bs

pub Tiled-le : (a e : ℕ) (bs : List Block) → Tiled a e bs → a ≤ e
Tiled-le a e [] t = omega arith
Tiled-le a e (b ∷ bs) t = omega (arith, Tiled-le (b.addr + header_size + b.size) e bs t.1)

pub init_memory-Tiled : (base : ℕ) → Tiled base (base + memory_size) (init_memory base)
unfolding init_memory
init_memory-Tiled base = omega arith

pub allocate-Tiled :
    (size e : ℕ) (b : Block) (bs : List Block)
    → size ≤ b.size
    → e ≤ b.addr + memory_size
    → Tiled b.addr e (b ∷ bs)
    → Tiled b.addr e (allocate size b bs)
unfolding allocate
allocate-Tiled size e b bs h small t =
    ground (arith, Tiled-le (b.addr + header_size + b.size) e bs t.1)
