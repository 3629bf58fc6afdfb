-- ===== src/Memory/Heap/RoundTrip.antt =====
-- `free` undoes `malloc` (source/kernel/core/memory.c): splitting and merging are inverse.
use waffle_os.Common.{
  ℕ, ◌+◌, ◌-◌, ◌≤◌, ◌≡◌, refl, inl, inr, true, false, ◌&&◌, List, [], ◌∷◌, some, arith, ltb, leb,
  ◌==◌, Bool-cases, subst, sym, ap, add32, ◌∙◌,
}
use waffle_os.Memory.Heap.{
  Block, memory_size, header_size, block_size, ensure_memory, allocate, first_fit, malloc, free,
  absorb, join, merge_from, merge_surrounding_free_blocks,
}
use waffle_os.Memory.Heap.Invariant.{Tiled, Coalesced, head_free, Tiled-le}
use waffle_os.Memory.Heap.Alloc.{first_fit-Tiled}
use waffle_os.Memory.Heap.Release.{Allocated, mark, mark_free-mark}
use waffle_os.Memory.Heap.Contract.{IsHeap, IsReady, ensure_memory-IsHeap}

absorb_stop : (b : Block) (bs : List Block) → head_free bs ≡ false → absorb b bs ≡ b ∷ bs
unfolding absorb
absorb_stop b [] h = refl
absorb_stop b (n ∷ bs) h = ground arith

allocate-merge :
    (size : ℕ) (p b : Block) (bs : List Block)
    → p.is_free ≡ false
    → b.is_free ≡ true
    → size ≤ b.size
    → b.size ≤ memory_size
    → head_free bs ≡ false
    → (merge_from b.addr p (mark b.addr (allocate size b bs)) ≡ p ∷ b ∷ bs)
      × (merge_surrounding_free_blocks b.addr (mark b.addr (allocate size b bs)) ≡ b ∷ bs)
unfolding allocate merge_from merge_surrounding_free_blocks mark join absorb
allocate-merge size p b bs pf f fits small h = ground (arith, absorb_stop b bs h)

first_fit-above :
    (size p a e : ℕ) (bs : List Block)
    → Tiled a e bs
    → (first_fit size bs).0 ≡ some p
    → a + header_size ≤ p
unfolding first_fit
first_fit-above size p a e [] t h = absurd (cc h)
first_fit-above size p a e (b ∷ bs) t h =
    ground (arith, first_fit-above size p (b.addr + header_size + b.size) e bs t.1)

first_fit-passes :
    (size k e : ℕ) (b : Block) (bs : List Block)
    → Tiled (b.addr + header_size + b.size) e bs
    → (first_fit size bs).0 ≡ some (k + header_size)
    → (b.addr == k) ≡ false
first_fit-passes size k e b bs t h =
    let above = first_fit-above size (k + header_size) (b.addr + header_size + b.size) e bs t h in
    ground arith

-- The search hands out a block in use.
allocate-Allocated :
    (size : ℕ) (b : Block) (bs : List Block)
    → (n : ℕ) × Allocated (b.addr + header_size) n (allocate size b bs)
unfolding allocate
allocate-Allocated size b bs =
    elim (Bool-cases (ltb (add32 (add32 size header_size) block_size) b.size)) [
      | inl split ↦ (size, rw split (inl (refl, refl, refl)))
      | inr whole ↦ (b.size, rw whole (inl (refl, refl, refl)))
    ]

first_fit-Allocated :
    (size p : ℕ) (bs : List Block)
    → (first_fit size bs).0 ≡ some p
    → (n : ℕ) × Allocated p n (first_fit size bs).1
unfolding first_fit
first_fit-Allocated size p [] h = cc
first_fit-Allocated size p (b ∷ bs) h = elim (Bool-cases (b.is_free && leb size b.size)) [
  | inl hit ↦
      let here : b.addr + header_size ≡ p = ground arith in
      rw (hit, ← here) (allocate-Allocated size b bs)
  | inr miss ↦ let (n, w) = first_fit-Allocated size p bs (ground arith) in (n, rw miss (inr w))
]

merge_from-skip :
    (k : ℕ) (p b : Block) (bs : List Block)
    → (b.addr == k) ≡ false
    → merge_from k p (mark k (b ∷ bs)) ≡ p ∷ merge_from k b (mark k bs)
unfolding merge_from mark
merge_from-skip k p b bs other = ground arith

merge-skip :
    (k : ℕ) (b : Block) (bs : List Block)
    → (b.addr == k) ≡ false
    → merge_surrounding_free_blocks k (mark k (b ∷ bs)) ≡ merge_from k b (mark k bs)
unfolding merge_surrounding_free_blocks mark
merge-skip k b bs other = ground arith

first_fit-merge_from :
    (size k e : ℕ) (p : Block) (bs : List Block)
    → e ≤ p.addr + memory_size
    → Tiled p.addr e (p ∷ bs)
    → Coalesced (p ∷ bs)
    → (first_fit size bs).0 ≡ some (k + header_size)
    → merge_from k p (mark k (first_fit size bs).1) ≡ p ∷ bs
unfolding first_fit
first_fit-merge_from size k e p [] small t c h = cc
first_fit-merge_from size k e p (b ∷ bs) small t c h =
    elim (Bool-cases (b.is_free && leb size b.size)) [
      | inl hit ↦
          let here : b.addr ≡ k = ground arith in
          rw (hit, ← here)
            (allocate-merge size p b bs (ground arith) (ground arith) (ground arith)
              (omega (arith, Tiled-le (b.addr + header_size + b.size) e bs t.1.1)) (ground arith)).0
      | inr miss ↦
          let later : (first_fit size bs).0 ≡ some (k + header_size) = ground arith in
          let other = first_fit-passes size k e b bs t.1.1 later in
          rw miss (
            merge_from-skip k p b (first_fit size bs).1 other
            ∙ ap (λ cs. p ∷ cs)
                (first_fit-merge_from size k e b bs (omega arith) (refl, t.1.1) c.1 later))
    ]

first_fit-merge :
    (size k a e : ℕ) (bs : List Block)
    → e ≤ a + memory_size
    → Tiled a e bs
    → Coalesced bs
    → (first_fit size bs).0 ≡ some (k + header_size)
    → merge_surrounding_free_blocks k (mark k (first_fit size bs).1) ≡ bs
unfolding first_fit
first_fit-merge size k a e [] small t c h = cc
first_fit-merge size k a e (b ∷ bs) small t c h = elim (Bool-cases (b.is_free && leb size b.size)) [
  | inl hit ↦
      let here : b.addr ≡ k = ground arith in
      rw (hit, ← here)
        (allocate-merge size (record b { is_free = false }) b bs refl (ground arith) (ground arith)
          (omega (arith, Tiled-le (b.addr + header_size + b.size) e bs t.1)) (ground arith)).1
  | inr miss ↦
      let later : (first_fit size bs).0 ≡ some (k + header_size) = ground arith in
      let other = first_fit-passes size k e b bs t.1 later in
      rw miss (
        merge-skip k b (first_fit size bs).1 other
        ∙ first_fit-merge_from size k e b bs (omega arith) (refl, t.1) c later)
]

block_round_trip :
    (base size k : ℕ) (chain : List Block)
    → IsHeap base chain
    → (first_fit size chain).0 ≡ some (k + header_size)
    → free (k + header_size) (first_fit size chain).1 ≡ some chain
unfolding free
block_round_trip base size k chain h e =
    let (n, w) = first_fit-Allocated size (k + header_size) chain e in
    ground (
      arith,
      mark_free-mark k n base (base + memory_size) (first_fit size chain).1
          (first_fit-Tiled size base (base + memory_size) chain (omega arith) h.tiled) w,
      first_fit-merge size k base (base + memory_size) chain (omega arith) h.tiled h.coalesced e,
    )

-- Freeing what the last `malloc` handed out gives back the chain from before it, block by block
-- (the initialised one, where the call was the first).
pub free-malloc :
    (base size p : ℕ) (chain : List Block)
    → IsReady base chain
    → (malloc base size chain).0 ≡ some p
    → free p (malloc base size chain).1 ≡ some (ensure_memory base chain)
unfolding malloc
free-malloc base size p chain r e =
    let h = ensure_memory-IsHeap base chain r in
    let above : base + header_size ≤ p =
      first_fit-above size p base (base + memory_size) (ensure_memory base chain) h.tiled e in
    let back : p - header_size + header_size ≡ p = omega arith in
    subst
      (λ q. free q (first_fit size (ensure_memory base chain)).1 ≡ some (ensure_memory base chain))
      back
      (block_round_trip base size (p - header_size) (ensure_memory base chain) h
        (e ∙ ap some (sym back)))
