-- ===== src/Memory/Heap/Alloc.antt =====
-- What `malloc` of source/kernel/core/memory.c does to the chain of blocks.
use mathlib.Core.List.{Perm}
use mathlib.Core.List.Perm
use waffle_os.Common.{
  ℕ, ◌+◌, ◌≤◌, ◌≡◌, refl, inl, inr, true, false, ◌&&◌, List, [], ◌∷◌, none, some, arith, ltb, leb,
  if◌then◌else◌, add32, Bool-cases,
}
use waffle_os.Memory.Heap.{Block, memory_size, header_size, block_size, allocate, first_fit}
use waffle_os.Memory.Heap.Invariant.{Tiled, head_free, Coalesced, Tiled-le, allocate-Tiled}

-- The payloads in use: address and size.
abbrev pub live : List Block → List (ℕ × ℕ)
live [] = []
live (b ∷ bs) = if b.is_free then live bs else (b.addr + header_size, b.size) ∷ live bs

abbrev pub Refused : ℕ → List Block → Type 0
Refused size [] = Unit
Refused size (b ∷ bs) = ((b.is_free && leb size b.size) ≡ false) × Refused size bs

pub first_fit-Tiled :
    (size a e : ℕ) (bs : List Block)
    → e ≤ a + memory_size
    → Tiled a e bs
    → Tiled a e (first_fit size bs).1
unfolding first_fit
first_fit-Tiled size a e [] small t = t
first_fit-Tiled size a e (b ∷ bs) small t =
    ground
      (arith, allocate-Tiled size e b bs, first_fit-Tiled size (b.addr + header_size + b.size) e bs)

allocate-Coalesced :
    (size : ℕ) (b : Block) (bs : List Block)
    → b.is_free ≡ true
    → Coalesced (b ∷ bs)
    → Coalesced (allocate size b bs)
unfolding allocate
allocate-Coalesced size b bs f c = ground arith

first_fit-head_free :
    (size : ℕ) (bs : List Block) → head_free bs ≡ false → head_free (first_fit size bs).1 ≡ false
unfolding first_fit
first_fit-head_free size [] h = refl
first_fit-head_free size (b ∷ bs) h = ground arith

pub first_fit-Coalesced :
    (size : ℕ) (bs : List Block) → Coalesced bs → Coalesced (first_fit size bs).1
unfolding first_fit
first_fit-Coalesced size [] c = tt
first_fit-Coalesced size (b ∷ bs) c = ground (
  arith,
  allocate-Coalesced size b bs,
  first_fit-Coalesced size bs c.1,
  first_fit-head_free size bs,
)

-- The payload that a successful search hands out: its size, and the regions in use afterwards.
abbrev pub Granted : ℕ → ℕ → List Block → List Block → Type 0
Granted size p before after =
    (n : ℕ) × (size ≤ n)
    × (n ≤ size + header_size + block_size)
    × Perm (live after) ((p, n) ∷ live before)

granted_size : ℕ → Block → ℕ
granted_size size b =
    if ltb (add32 (add32 size header_size) block_size) b.size then size else b.size

allocate-live :
    (size : ℕ) (b : Block) (bs : List Block)
    → live (allocate size b bs) ≡ (b.addr + header_size, granted_size size b) ∷ live bs
unfolding allocate granted_size
allocate-live size b bs = ground arith

granted_size_bounds :
    (size : ℕ) (b : Block)
    → size ≤ b.size
    → b.size ≤ memory_size
    → (size ≤ granted_size size b) × (granted_size size b ≤ size + header_size + block_size)
unfolding granted_size
granted_size_bounds size b h small = ground arith

allocate-Granted :
    (size : ℕ) (b : Block) (bs : List Block)
    → b.is_free ≡ true
    → size ≤ b.size
    → b.size ≤ memory_size
    → Granted size (b.addr + header_size) (b ∷ bs) (allocate size b bs)
allocate-Granted size b bs f h small =
    let bounds = granted_size_bounds size b h small in
    (granted_size size b, bounds.0, bounds.1, rw (allocate-live size b bs, f) (Perm.refl _))

keep-Granted :
    (size p : ℕ) (b : Block) (bs cs : List Block)
    → Granted size p bs cs
    → Granted size p (b ∷ bs) (b ∷ cs)
keep-Granted size p b bs cs (n, lo, hi, perm) = elim (Bool-cases b.is_free) [
  | inl f ↦ (n, lo, hi, rw f perm)
  | inr f ↦ (n, lo, hi, rw f (Perm.trans (Perm.cons _ perm) (Perm.swap (p, n) _ (live bs))))
]

pub first_fit-Granted :
    (size a e p : ℕ) (bs : List Block)
    → e ≤ a + memory_size
    → Tiled a e bs
    → (first_fit size bs).0 ≡ some p
    → Granted size p bs (first_fit size bs).1
unfolding first_fit
first_fit-Granted size a e p [] small t h = cc
first_fit-Granted size a e p (b ∷ bs) small t h = elim (Bool-cases (b.is_free && leb size b.size)) [
  | inl hit ↦
      let here : b.addr + header_size ≡ p = ground arith in
      rw (hit, ← here)
        (allocate-Granted size b bs (ground arith) (ground arith)
          (omega (arith, Tiled-le (b.addr + header_size + b.size) e bs t.1)))
  | inr miss ↦
      let later : (first_fit size bs).0 ≡ some p = ground arith in
      rw miss (
        keep-Granted size p b bs (first_fit size bs).1
          (first_fit-Granted size (b.addr + header_size + b.size) e p bs (omega arith) t.1 later))
]

-- No block serves the request exactly when the search fails, and then it changes nothing.
pub first_fit-Refused :
    (size : ℕ) (bs : List Block) → Refused size bs → first_fit size bs ≡ (none, bs)
unfolding first_fit
first_fit-Refused size [] r = refl
first_fit-Refused size (b ∷ bs) r = ground (arith, first_fit-Refused size bs)

pub Refused-first_fit :
    (size : ℕ) (bs : List Block) → (first_fit size bs).0 ≡ none → Refused size bs
unfolding first_fit
Refused-first_fit size [] h = tt
Refused-first_fit size (b ∷ bs) h = ground (arith, Refused-first_fit size bs)
