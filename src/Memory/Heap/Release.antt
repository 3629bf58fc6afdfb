-- ===== src/Memory/Heap/Release.antt =====
-- What `free` and `merge_surrounding_free_blocks` of source/kernel/core/memory.c do to the chain.
use mathlib.Core.List.{Perm}
use mathlib.Core.List.Perm
use waffle_os.Common.{
  ℕ, ◌+◌, ◌≤◌, ◌≡◌, refl, ◌⊎◌, inl, inr, true, false, List, [], ◌∷◌, some, arith, ◌==◌,
  if◌then◌else◌, Bool-cases, subst,
}
use waffle_os.Memory.Heap.{
  Block, memory_size, header_size, join, absorb, merge_from, merge_surrounding_free_blocks,
  mark_free,
}
use waffle_os.Memory.Heap.Invariant.{Tiled, head_free, Coalesced, Tiled-le}
use waffle_os.Memory.Heap.Alloc.{live}

-- The payload of `n` bytes at `p` is in use.
abbrev pub Allocated : ℕ → ℕ → List Block → Type 0
Allocated p n [] = ⊥
Allocated p n (b ∷ bs) =
    ((b.is_free ≡ false) × (b.addr + header_size ≡ p) × (b.size ≡ n)) ⊎ Allocated p n bs

-- `mark_free` where it does not fail.
unfoldable pub mark : ℕ → List Block → List Block
mark k [] = []
mark k (b ∷ bs) = if b.addr == k then record b { is_free = true } ∷ bs else b ∷ mark k bs

pub Allocated-above :
    (p n a e : ℕ) (bs : List Block) → Tiled a e bs → Allocated p n bs → a + header_size ≤ p
Allocated-above p n a e [] t w = absurd w
Allocated-above p n a e (b ∷ bs) t (inl w) = omega arith
Allocated-above p n a e (b ∷ bs) t (inr w) =
    omega (arith, Allocated-above p n (b.addr + header_size + b.size) e bs t.1 w)

-- The blocks of a tiled chain have different addresses, so the search stops at the right one.
pub mark_free-mark :
    (k n a e : ℕ) (bs : List Block)
    → Tiled a e bs
    → Allocated (k + header_size) n bs
    → mark_free k bs ≡ some (mark k bs)
unfolding mark_free mark
mark_free-mark k n a e [] t w = absurd w
mark_free-mark k n a e (b ∷ bs) t (inl w) = ground arith
mark_free-mark k n a e (b ∷ bs) t (inr w) = ground (
  arith,
  Allocated-above (k + header_size) n (b.addr + header_size + b.size) e bs t.1 w,
  mark_free-mark k n (b.addr + header_size + b.size) e bs t.1 w,
)

pub mark-Tiled : (k a e : ℕ) (bs : List Block) → Tiled a e bs → Tiled a e (mark k bs)
unfolding mark
mark-Tiled k a e [] t = t
mark-Tiled k a e (b ∷ bs) t = ground (arith, mark-Tiled k (b.addr + header_size + b.size) e bs t.1)

absorb-Tiled :
    (e : ℕ) (c : Block) (bs : List Block)
    → e ≤ c.addr + memory_size
    → Tiled c.addr e (c ∷ bs)
    → Tiled c.addr e (absorb c bs)
unfolding absorb join
absorb-Tiled e c [] small t = t
absorb-Tiled e c (n ∷ bs) small t =
    ground
      (arith, absorb-Tiled e (join c n) bs, Tiled-le (n.addr + header_size + n.size) e bs t.1.1)

absorb-Coalesced : (c : Block) (bs : List Block) → Coalesced bs → Coalesced (absorb c bs)
unfolding absorb join
absorb-Coalesced c [] h = ground arith
absorb-Coalesced c (n ∷ bs) h = ground (arith, absorb-Coalesced (join c n) bs)

absorb-head_free : (c : Block) (bs : List Block) → head_free (absorb c bs) ≡ c.is_free
unfolding absorb join
absorb-head_free c [] = refl
absorb-head_free c (n ∷ bs) = ground (arith, absorb-head_free (join c n) bs)

absorb-live : (c : Block) (bs : List Block) → c.is_free ≡ true → live (absorb c bs) ≡ live bs
unfolding absorb join
absorb-live c [] f = ground arith
absorb-live c (n ∷ bs) f = ground (arith, absorb-live (join c n) bs)

pub merge_from-Tiled :
    (k e : ℕ) (p : Block) (bs : List Block)
    → e ≤ p.addr + memory_size
    → Tiled p.addr e (p ∷ bs)
    → Tiled p.addr e (merge_from k p bs)
unfolding merge_from join
merge_from-Tiled k e p [] small t = t
merge_from-Tiled k e p (c ∷ bs) small t = ground (
  arith,
  absorb-Tiled e c bs,
  absorb-Tiled e (join p c) bs,
  merge_from-Tiled k e c bs,
  Tiled-le (c.addr + header_size + c.size) e bs t.1.1,
)

merge_from-head_free :
    (k : ℕ) (p : Block) (bs : List Block) → head_free (merge_from k p bs) ≡ p.is_free
unfolding merge_from join
merge_from-head_free k p [] = refl
merge_from-head_free k p (c ∷ bs) = ground (arith, absorb-head_free (join p c) bs)

pub merge_from-Coalesced :
    (k : ℕ) (p : Block) (bs : List Block)
    → Coalesced (p ∷ bs)
    → Coalesced (merge_from k p (mark k bs))
unfolding merge_from mark join
merge_from-Coalesced k p [] h = h
merge_from-Coalesced k p (c ∷ bs) h = ground (
  arith,
  absorb-Coalesced (record c { is_free = true }) bs,
  absorb-Coalesced (join p (record c { is_free = true })) bs,
  absorb-head_free (record c { is_free = true }) bs,
  merge_from-Coalesced k c bs,
  merge_from-head_free k c (mark k bs),
)

-- Merging never touches a payload in use.
pub merge_from-live :
    (k : ℕ) (p : Block) (bs : List Block) → live (merge_from k p (mark k bs)) ≡ live (p ∷ mark k bs)
unfolding merge_from mark join
merge_from-live k p [] = refl
merge_from-live k p (c ∷ bs) = ground (
  arith,
  absorb-live (record c { is_free = true }) bs,
  absorb-live (join p (record c { is_free = true })) bs,
  merge_from-live k c bs,
)

pub merge-Tiled :
    (k a e : ℕ) (bs : List Block)
    → e ≤ a + memory_size
    → Tiled a e bs
    → Tiled a e (merge_surrounding_free_blocks k bs)
unfolding merge_surrounding_free_blocks
merge-Tiled k a e [] small t = t
merge-Tiled k a e (b ∷ bs) small t = ground (arith, absorb-Tiled e b bs, merge_from-Tiled k e b bs)

pub merge-Coalesced :
    (k : ℕ) (bs : List Block)
    → Coalesced bs
    → Coalesced (merge_surrounding_free_blocks k (mark k bs))
unfolding merge_surrounding_free_blocks mark
merge-Coalesced k [] h = h
merge-Coalesced k (b ∷ bs) h =
    ground (arith, absorb-Coalesced (record b { is_free = true }) bs, merge_from-Coalesced k b bs)

pub merge-live :
    (k : ℕ) (bs : List Block)
    → live (merge_surrounding_free_blocks k (mark k bs)) ≡ live (mark k bs)
unfolding merge_surrounding_free_blocks mark
merge-live k [] = refl
merge-live k (b ∷ bs) =
    ground (arith, absorb-live (record b { is_free = true }) bs, merge_from-live k b bs)

-- Marking takes the payload, and no other, out of those in use.
pub mark-live :
    (k n a e : ℕ) (bs : List Block)
    → Tiled a e bs
    → Allocated (k + header_size) n bs
    → Perm (live bs) ((k + header_size, n) ∷ live (mark k bs))
unfolding mark
mark-live k n a e [] t w = absurd w
mark-live k n a e (b ∷ bs) t (inl w) =
    let same : live (b ∷ bs) ≡ (k + header_size, n) ∷ live (mark k (b ∷ bs)) = ground arith in
    subst (Perm (live (b ∷ bs))) same (Perm.refl (live (b ∷ bs)))
mark-live k n a e (b ∷ bs) t (inr w) =
    let miss : (b.addr == k) ≡ false =
      ground
        (arith, Allocated-above (k + header_size) n (b.addr + header_size + b.size) e bs t.1 w) in
    let rest : Perm (live bs) ((k + header_size, n) ∷ live (mark k bs)) =
      mark-live k n (b.addr + header_size + b.size) e bs t.1 w in
    elim (Bool-cases b.is_free) [
      | inl f ↦ rw (miss, f) rest
      | inr f ↦
          rw (miss, f)
            (Perm.trans (Perm.cons _ rest) (Perm.swap (k + header_size, n) _ (live (mark k bs))))
    ]
