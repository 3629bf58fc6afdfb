-- ===== src/Paging/Separation.antt =====
-- Payloads that `malloc` (source/kernel/core/memory.c) hands out one after the other are apart, and
-- lie inside the heap: what source/kernel/core/page.c relies on.
use mathlib.Core.Logic.{∥∥₁_elim}
use mathlib.Core.List.{Perm, Permᴰ}
use mathlib.Core.Bool.{Bool-set}
use waffle_os.Common.{
  ℕ, ◌+◌, ◌≤◌, ◌≡◌, refl, Bool, true, ◌&&◌, ◌||◌, List, [], ◌∷◌, some, leb, arith, sym, ◌∙◌, inr,
  ◌⊎◌,
}
use waffle_os.Memory.Heap.{Block, malloc, memory_size}
use waffle_os.Memory.Heap.Alloc.{live}
use waffle_os.Memory.Heap.Contract.{
  IsHeap, IsReady, Separated, IsHeap-Separated, malloc-Granted, malloc-IsHeap,
}

abbrev apart : ℕ × ℕ → ℕ × ℕ → Bool
apart (p, n) (q, m) = leb (p + n) q || leb (q + m) p

apart_comm : (x y : ℕ × ℕ) → apart x y ≡ apart y x
apart_comm (p, n) (q, m) = ground arith

all_apart : ℕ × ℕ → List (ℕ × ℕ) → Bool
all_apart x [] = true
all_apart x (y ∷ ys) = apart x y && all_apart x ys

pairwise : List (ℕ × ℕ) → Bool
unfolding all_apart
pairwise [] = true
pairwise (x ∷ xs) = all_apart x xs && pairwise xs

all_within : ℕ → ℕ → List (ℕ × ℕ) → Bool
all_within a e [] = true
all_within a e ((p, n) ∷ xs) = (leb a p && leb (p + n) e) && all_within a e xs

all_apart-permᴰ : (x : ℕ × ℕ) {xs ys : List (ℕ × ℕ)} → Permᴰ xs ys → all_apart x xs ≡ all_apart x ys
unfolding all_apart
all_apart-permᴰ x Permᴰ.nil = refl
all_apart-permᴰ x (Permᴰ.cons e p) = rw (e, all_apart-permᴰ x p) refl
all_apart-permᴰ x (Permᴰ.swap d e) = rw (d, e) (ground arith)
all_apart-permᴰ x (Permᴰ.trans p q) = all_apart-permᴰ x p ∙ all_apart-permᴰ x q

all_apart-perm : (x : ℕ × ℕ) {xs ys : List (ℕ × ℕ)} → Perm xs ys → all_apart x xs ≡ all_apart x ys
all_apart-perm x p = ∥∥₁_elim p (Bool-set _ _) (all_apart-permᴰ x)

pairwise-permᴰ : {xs ys : List (ℕ × ℕ)} → Permᴰ xs ys → pairwise xs ≡ pairwise ys
unfolding pairwise all_apart
pairwise-permᴰ Permᴰ.nil = refl
pairwise-permᴰ (Permᴰ.cons {a = x} e p) = rw (e, all_apart-permᴰ _ p, pairwise-permᴰ p) refl
pairwise-permᴰ (Permᴰ.swap {a = x} {b = y} d e) = rw (← d, ← e, apart_comm x y) (ground arith)
pairwise-permᴰ (Permᴰ.trans p q) = pairwise-permᴰ p ∙ pairwise-permᴰ q

pairwise-perm : {xs ys : List (ℕ × ℕ)} → Perm xs ys → pairwise xs ≡ pairwise ys
pairwise-perm p = ∥∥₁_elim p (Bool-set _ _) pairwise-permᴰ

all_within-permᴰ :
    (a e : ℕ) {xs ys : List (ℕ × ℕ)} → Permᴰ xs ys → all_within a e xs ≡ all_within a e ys
unfolding all_within
all_within-permᴰ a e Permᴰ.nil = refl
all_within-permᴰ a e (Permᴰ.cons s p) = rw (s, all_within-permᴰ a e p) refl
all_within-permᴰ a e (Permᴰ.swap d s) = rw (d, s) (ground arith)
all_within-permᴰ a e (Permᴰ.trans p q) = all_within-permᴰ a e p ∙ all_within-permᴰ a e q

all_within-perm :
    (a e : ℕ) {xs ys : List (ℕ × ℕ)} → Perm xs ys → all_within a e xs ≡ all_within a e ys
all_within-perm a e p = ∥∥₁_elim p (Bool-set _ _) (all_within-permᴰ a e)

-- A list in order from `b` on is apart from what ends at `b`.
Separated-all_apart :
    (p n b e : ℕ) (xs : List (ℕ × ℕ)) → p + n ≤ b → Separated b e xs → all_apart (p, n) xs ≡ true
unfolding all_apart
Separated-all_apart p n b e [] h s = refl
Separated-all_apart p n b e ((q, m) ∷ xs) h s =
    let rest = Separated-all_apart p n (q + m) e xs (omega arith) s.1 in
    let here : leb (p + n) q ≡ true = ground arith in rw (here, rest) refl

Separated-pairwise : (a e : ℕ) (xs : List (ℕ × ℕ)) → Separated a e xs → pairwise xs ≡ true
unfolding pairwise
Separated-pairwise a e [] s = refl
Separated-pairwise a e ((p, n) ∷ xs) s =
    rw (Separated-all_apart p n (p + n) e xs (omega arith) s.1, Separated-pairwise (p + n) e xs s.1)
      refl

Separated-end : (a e : ℕ) (xs : List (ℕ × ℕ)) → Separated a e xs → a ≤ e
Separated-end a e [] s = s
Separated-end a e ((p, n) ∷ xs) s =
    let later = Separated-end (p + n) e xs s.1 in omega (arith, later)

Separated-all_within :
    (base a e : ℕ) (xs : List (ℕ × ℕ)) → base ≤ a → Separated a e xs → all_within base e xs ≡ true
unfolding all_within
Separated-all_within base a e [] h s = refl
Separated-all_within base a e ((p, n) ∷ xs) h s =
    let later = Separated-end (p + n) e xs s.1 in
    let rest = Separated-all_within base (p + n) e xs (omega arith) s.1 in
    let low : leb base p ≡ true = ground arith in
    let high : leb (p + n) e ≡ true = ground arith in rw (low, high, rest) refl

-- Two payloads that are handed out one after the other.
pub record TwoPayloads (base size p q : ℕ) : Type 0 where
  pub first_in : (base ≤ p) × (p + size ≤ base + memory_size)
  pub second_in : (base ≤ q) × (q + size ≤ base + memory_size)
  pub separate : (p + size ≤ q) ⊎ (q + size ≤ p)

head_of :
    (base p n : ℕ) (xs : List (ℕ × ℕ))
    → all_within base (base + memory_size) ((p, n) ∷ xs) ≡ true
    → (base ≤ p) × (p + n ≤ base + memory_size)
unfolding all_within
head_of base p n xs h = ground arith

pub malloc-TwoPayloads :
    (base size p q : ℕ) (chain : List Block)
    → IsReady base chain
    → (malloc base size chain).0 ≡ some p
    → (malloc base size (malloc base size chain).1).0 ≡ some q
    → TwoPayloads base size p q
unfolding pairwise all_apart
malloc-TwoPayloads base size p q chain r e f =
    let chain1 = (malloc base size chain).1 in
    let chain2 = (malloc base size chain1).1 in
    let heap1 : IsHeap base chain1 = malloc-IsHeap base size chain r in
    let heap2 : IsHeap base chain2 = malloc-IsHeap base size chain1 (inr heap1) in
    let (n, lo, hi, perm1) = malloc-Granted base size p chain r e in
    let (m, lo', hi', perm2) = malloc-Granted base size q chain1 (inr heap1) f in
    let order1 = IsHeap-Separated base chain1 heap1 in
    let order2 = IsHeap-Separated base chain2 heap2 in
    let in1 = head_of base p n (live chain) (
      sym (all_within-perm base (base + memory_size) perm1)
      ∙ Separated-all_within base base (base + memory_size) (live chain1) (omega arith) order1) in
    let in2 = head_of base q m (live chain1) (
      sym (all_within-perm base (base + memory_size) perm2)
      ∙ Separated-all_within base base (base + memory_size) (live chain2) (omega arith) order2) in
    let pairs : (all_apart (q, m) (live chain1) && pairwise (live chain1)) ≡ true =
      sym (pairwise-perm perm2)
      ∙ Separated-pairwise base (base + memory_size) (live chain2) order2 in
    let new : all_apart (q, m) (live chain1) ≡ true = ground arith in
    let both : (apart (q, m) (p, n) && all_apart (q, m) (live chain)) ≡ true =
      sym (all_apart-perm (q, m) perm1) ∙ new in
    record {
      first_in = omega (arith, in1);
      second_in = omega (arith, in2);
      separate = ground arith;
    }
