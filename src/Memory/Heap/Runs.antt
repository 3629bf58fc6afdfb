-- ===== src/Memory/Heap/Runs.antt =====
-- Sequences of calls of `malloc` and `free` (source/kernel/core/memory.c).
use waffle_os.Common.{ℕ, ◌+◌, ◌≤◌, ◌≡◌, refl, sym, subst, inl, inr, List, [], ◌∷◌, some, map, arith}
use waffle_os.Memory.Heap.{Block, memory_size, header_size, malloc, free}
use waffle_os.Memory.Heap.Invariant.{Tiled}
use waffle_os.Memory.Heap.Release.{Allocated}
use waffle_os.Memory.Heap.Contract.{IsHeap, IsReady, Separated, malloc-IsHeap, free-Released}

-- The chains that calls lead to from the unused allocator: of `malloc` with any size, served or not,
-- and of `free` with a payload in use.
pub data HeapRun (base : ℕ) : List Block → Type 0 where
  unused : HeapRun base []
  mallocs :
      {chain : List Block} (size : ℕ) → HeapRun base chain → HeapRun base (malloc base size chain).1
  frees :
      {chain after : List Block} (p n : ℕ)
      → HeapRun base chain
      → Allocated p n chain
      → free p chain ≡ some after
      → HeapRun base after

HeapRun-IsReady : (base : ℕ) (chain : List Block) → HeapRun base chain → IsReady base chain
HeapRun-IsReady base chain unused = inl refl
HeapRun-IsReady base chain (mallocs {chain = before} size run) =
    inr (malloc-IsHeap base size before (HeapRun-IsReady base before run))
HeapRun-IsReady base chain (frees {chain = before} p n run used e) =
    elim (HeapRun-IsReady base before run) [
      | inl none_yet ↦ absurd (subst (Allocated p n) none_yet used)
      | inr heap ↦
          let (after, e', heap', perm) = free-Released base p n before heap used in
          let same : after ≡ chain = cc in inr (subst (IsHeap base) same heap')
    ]

-- Address and size of the payload of a block, in use or free.
abbrev pub payload : Block → ℕ × ℕ
payload b = (b.addr + header_size, b.size)

Tiled-Separated : (a e : ℕ) (bs : List Block) → Tiled a e bs → Separated a e (map payload bs)
Tiled-Separated a e [] t = omega arith
Tiled-Separated a e (b ∷ bs) t =
    (omega arith, Tiled-Separated (b.addr + header_size + b.size) e bs t.1)

-- After any calls of `malloc`, of any size and served or not, and of `free` with payloads in use, the
-- payloads of all blocks, in use or free, lie in the array `heap` in the order of the chain: each
-- starts at least a header behind the end of the one before, so none overlaps another one or a header.
pub HeapRun-Separated :
    (base : ℕ) (chain : List Block)
    → HeapRun base chain
    → Separated base (base + memory_size) (map payload chain)
HeapRun-Separated base chain run = elim (HeapRun-IsReady base chain run) [
  | inl none_yet ↦
      let room : base ≤ base + memory_size = omega arith in
      subst (λ c. Separated base (base + memory_size) (map payload c)) (sym none_yet) room
  | inr heap ↦ Tiled-Separated base (base + memory_size) chain heap.tiled
]
