-- ===== src/Memory/Heap/Contract.antt =====
-- What callers of `malloc` and `free` (source/kernel/core/memory.c) may rely on.
use mathlib.Core.List.{Perm}
use waffle_os.Common.{
  ℕ, ◌+◌, ◌-◌, ◌≤◌, ◌≡◌, refl, ◌↔◌, ◌⊎◌, inl, inr, List, [], ◌∷◌, Option, none, some, arith, subst,
  sym, ap,
}
use waffle_os.Memory.Heap.{
  Block, memory_size, header_size, init_memory, ensure_memory, malloc, free,
  merge_surrounding_free_blocks,
}
use waffle_os.Memory.Heap.Invariant.{Tiled, Coalesced}
use waffle_os.Memory.Heap.Alloc.{
  live, Granted, Refused, first_fit-Tiled, first_fit-Coalesced, first_fit-Granted,
  first_fit-Refused, Refused-first_fit,
}
use waffle_os.Memory.Heap.Release.{
  Allocated, Allocated-above, mark, mark_free-mark, mark-Tiled, merge-Tiled, merge-Coalesced,
  merge-live, mark-live,
}

-- The chain covers the array `heap` exactly, and no two neighbours are free.
pub record IsHeap (base : ℕ) (chain : List Block) : Type 0 where
  pub tiled : Tiled base (base + memory_size) chain
  pub coalesced : Coalesced chain

-- Either the allocator has not been used, or the chain is a heap.
abbrev pub IsReady : ℕ → List Block → Type 0
IsReady base chain = (chain ≡ []) ⊎ IsHeap base chain

pub init_memory-IsHeap : (base : ℕ) → IsHeap base (init_memory base)
unfolding init_memory
init_memory-IsHeap base = record { tiled = omega arith; coalesced = ground arith }

pub ensure_memory-IsHeap :
    (base : ℕ) (chain : List Block) → IsReady base chain → IsHeap base (ensure_memory base chain)
unfolding ensure_memory
ensure_memory-IsHeap base [] r = init_memory-IsHeap base
ensure_memory-IsHeap base (b ∷ bs) (inl e) = absurd (cc e)
ensure_memory-IsHeap base (b ∷ bs) (inr h) = h

live-ensure_memory : (base : ℕ) (chain : List Block) → live (ensure_memory base chain) ≡ live chain
unfolding ensure_memory init_memory
live-ensure_memory base [] = refl
live-ensure_memory base (b ∷ bs) = refl

-- After any call of `malloc`, served or not, the chain tiles the heap and is coalesced.
pub malloc-IsHeap :
    (base size : ℕ) (chain : List Block)
    → IsReady base chain
    → IsHeap base (malloc base size chain).1
unfolding malloc
malloc-IsHeap base size chain r = record {
  tiled = first_fit-Tiled size base (base + memory_size) _ (omega arith) heap.tiled;
  coalesced = first_fit-Coalesced size _ heap.coalesced;
}
  where
    heap : IsHeap base (ensure_memory base chain)
    heap = ensure_memory-IsHeap base chain r

-- A call of `malloc` that is served hands out one payload of at least `size` bytes, at most 28
-- bytes more, and the payloads in use are those from before and the new one.
pub malloc-Granted :
    (base size p : ℕ) (chain : List Block)
    → IsReady base chain
    → (malloc base size chain).0 ≡ some p
    → Granted size p chain (malloc base size chain).1
unfolding malloc
malloc-Granted base size p chain r h =
    let (n, lo, hi, perm) =
      first_fit-Granted size base (base + memory_size) p _ (omega arith)
        (ensure_memory-IsHeap base chain r).tiled h in
    (
      n,
      lo,
      hi,
      subst (λ xs. Perm (live (malloc base size chain).1) ((p, n) ∷ xs))
          (live-ensure_memory base chain) perm,
    )

-- `malloc` returns NULL exactly when no block is free and large enough.
malloc-none :
    (base size : ℕ) (chain : List Block)
    → ((malloc base size chain).0 ≡ none) ↔ Refused size (ensure_memory base chain)
unfolding malloc
malloc-none base size chain = (
  Refused-first_fit size (ensure_memory base chain),
  λ r. ap (λ (x : Option ℕ × List Block). x.0) (first_fit-Refused size _ r),
)

-- The payloads in use lie between `a` and `e`, in order, each with room for a header before it.
abbrev pub Separated : ℕ → ℕ → List (ℕ × ℕ) → Type 0
Separated a e [] = a ≤ e
Separated a e ((p, n) ∷ rest) = (a + header_size ≤ p) × Separated (p + n) e rest

Separated-weaken : (a b e : ℕ) (xs : List (ℕ × ℕ)) → a ≤ b → Separated b e xs → Separated a e xs
Separated-weaken a b e [] h s = omega arith
Separated-weaken a b e ((p, n) ∷ rest) h s = (omega arith, s.1)

live-Separated : (a e : ℕ) (bs : List Block) → Tiled a e bs → Separated a e (live bs)
live-Separated a e [] t = omega arith
live-Separated a e (b ∷ bs) t = ground (
  arith,
  live-Separated (b.addr + header_size + b.size) e bs t.1,
  Separated-weaken a (b.addr + header_size + b.size) e (live bs),
)

-- No two payloads in use overlap, there is room for a header before each, and all lie inside the
-- array `heap`.
pub IsHeap-Separated :
    (base : ℕ) (chain : List Block)
    → IsHeap base chain
    → Separated base (base + memory_size) (live chain)
IsHeap-Separated base chain h = live-Separated base (base + memory_size) chain h.tiled

-- The chain that `free` leaves, and what it keeps of the payloads in use.
abbrev pub Released : ℕ → ℕ → ℕ → List Block → Type 0
Released base p n chain =
    (after : List Block) × (free p chain ≡ some after)
    × IsHeap base after
    × Perm (live chain) ((p, n) ∷ live after)

free_block-Released :
    (base k n : ℕ) (chain : List Block)
    → IsHeap base chain
    → Allocated (k + header_size) n chain
    → Released base (k + header_size) n chain
unfolding free
free_block-Released base k n chain h w = (
  merge_surrounding_free_blocks k (mark k chain),
  ground (arith, mark_free-mark k n base (base + memory_size) chain h.tiled w),
  record {
    tiled =
        merge-Tiled k base (base + memory_size) (mark k chain) (omega arith)
          (mark-Tiled k base (base + memory_size) chain h.tiled);
    coalesced = merge-Coalesced k chain h.coalesced;
  },
  subst (λ xs. Perm (live chain) ((k + header_size, n) ∷ xs)) (sym (merge-live k chain))
      (mark-live k n base (base + memory_size) chain h.tiled w),
)

-- `free` of a payload in use succeeds, keeps the heap well formed and coalesced, and takes exactly
-- that payload out of those in use.
pub free-Released :
    (base p n : ℕ) (chain : List Block)
    → IsHeap base chain
    → Allocated p n chain
    → Released base p n chain
free-Released base p n chain h w =
    let above : base + header_size ≤ p =
      Allocated-above p n base (base + memory_size) chain h.tiled w in
    let back : p - header_size + header_size ≡ p = omega arith in
    subst (λ q. Released base q n chain) back
      (free_block-Released base (p - header_size) n chain h
        (subst (λ q. Allocated q n chain) (sym back) w))
