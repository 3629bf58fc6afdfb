-- ===== src/Memory/Heap/Tests.antt =====
-- The allocator on a small heap: one payload in use, the rest free.
use waffle_os.Common.{
  ℕ, map, ◌-◌, ◌+◌, ◌≡◌, refl, inl, inr, true, false, List, [], ◌∷◌, none, some, arith,
}
use waffle_os.Memory.Heap.{Block, memory_size, malloc, free, ensure_memory}
use waffle_os.Memory.Heap.Alloc.{Granted}
use waffle_os.Memory.Heap.Contract.{IsHeap, Separated, Released, malloc-Granted, free-Released}
use waffle_os.Memory.Heap.Runs.{HeapRun, unused, mallocs, frees, payload, HeapRun-Separated}
use waffle_os.Memory.Heap.RoundTrip.{free-malloc}

abbrev block : ℕ → ℕ → Block
block a n = record { addr = a; size = n; is_free = false }

abbrev gap : ℕ → ℕ → Block
gap a n = record { addr = a; size = n; is_free = true }

abbrev small_heap : List Block
small_heap = block 4096 100 ∷ gap 4208 (memory_size - 124) ∷ []

small_heap-IsHeap : IsHeap 4096 small_heap
small_heap-IsHeap = record { tiled = omega arith; coalesced = (refl, (refl, tt)) }

-- The first call splits the block that covers the heap.
malloc_first : malloc 4096 100 [] ≡ (some 4108, small_heap)
unfolding malloc
malloc_first = refl

-- A block that is not larger by 29 bytes is handed out whole.
malloc_whole : malloc 0 10 (gap 0 38 ∷ []) ≡ (some 12, block 0 38 ∷ [])
unfolding malloc
malloc_whole = refl

-- Freeing between two free blocks leaves one block.
free_between :
    free 162 (gap 0 88 ∷ gap 100 38 ∷ block 150 10 ∷ gap 172 5 ∷ [])
    ≡ some (gap 0 88 ∷ gap 100 77 ∷ [])
unfolding free
free_between = refl

free_stray : free 5000 small_heap ≡ none
unfolding free
free_stray = refl

malloc-Granted_example : Granted 64 4220 small_heap (malloc 4096 64 small_heap).1
unfolding malloc
malloc-Granted_example = malloc-Granted 4096 64 4220 small_heap (inr small_heap-IsHeap) refl

-- Two calls of malloc, and the first payload given back.
abbrev hole : List Block
hole = gap 4096 100 ∷ block 4208 64 ∷ gap 4284 (memory_size - 200) ∷ []

hole-HeapRun : HeapRun 4096 hole
unfolding malloc free
hole-HeapRun = frees 4108 100 (mallocs 64 (mallocs 100 unused)) (inl (refl, refl, refl)) refl

HeapRun-Separated_example : Separated 4096 (4096 + memory_size) (map payload hole)
HeapRun-Separated_example = HeapRun-Separated 4096 hole hole-HeapRun

free-Released_example : Released 4096 4108 100 small_heap
free-Released_example =
    free-Released 4096 4108 100 small_heap small_heap-IsHeap (inl (refl, refl, refl))

free-malloc_example : free 4220 (malloc 4096 64 small_heap).1 ≡ some (ensure_memory 4096 small_heap)
unfolding malloc
free-malloc_example = free-malloc 4096 64 4220 small_heap (inr small_heap-IsHeap) refl
