-- ===== src/Memory/Bytes/Compare.antt =====
-- `memcmp` (source/kernel/core/memory.c) decides equality of two regions.
use waffle_os.Common.{ℕ, zero, suc, ◌+◌, ◌%◌, ◌^◌, ◌<◌, ◌≡◌, ◌↔◌, refl, arith}
use waffle_os.Memory.Bytes.{Mem8, memcmp, memcmp_from}

-- The `n` bytes from `p` and from `q` on are the same.
abbrev pub SameBytes : ℕ → ℕ → ℕ → Mem8 → Type 0
SameBytes p q n m = (i : ℕ) → i < n → m (p + i) ≡ m (q + i)

memcmp_from_sound : (n p q : ℕ) (m : Mem8) → memcmp_from n p q m ≡ 0 → SameBytes p q n m
unfolding memcmp_from
memcmp_from_sound zero p q m e i h = absurd (omega arith)
memcmp_from_sound (suc n) p q m e zero h =
    let p0 : p + 0 ≡ p = omega arith in
    let q0 : q + 0 ≡ q = omega arith in rw (p0, q0) (ground arith)
memcmp_from_sound (suc n) p q m e (suc i) h =
    let p1 : p + suc i ≡ p + 1 + i = omega arith in
    let q1 : q + suc i ≡ q + 1 + i = omega arith in
    rw (p1, q1) (memcmp_from_sound n (p + 1) (q + 1) m (ground arith) i (omega arith))

SameBytes-head : (p q n : ℕ) (m : Mem8) → SameBytes p q (suc n) m → m p ≡ m q
SameBytes-head p q n m s =
    let p0 : p + 0 ≡ p = omega arith in
    let q0 : q + 0 ≡ q = omega arith in rw (p0, q0) at (s 0 (omega arith))

SameBytes-tail : (p q n : ℕ) (m : Mem8) → SameBytes p q (suc n) m → SameBytes (p + 1) (q + 1) n m
SameBytes-tail p q n m s i h =
    let p1 : p + 1 + i ≡ p + suc i = omega arith in
    let q1 : q + 1 + i ≡ q + suc i = omega arith in rw (p1, q1) (s (suc i) (omega arith))

memcmp_from_complete : (n p q : ℕ) (m : Mem8) → SameBytes p q n m → memcmp_from n p q m ≡ 0
unfolding memcmp_from
memcmp_from_complete zero p q m s = refl
memcmp_from_complete (suc n) p q m s =
    let here : m p ≡ m q = SameBytes-head p q n m s in
    ground (arith, memcmp_from_complete n (p + 1) (q + 1) m (SameBytes-tail p q n m s))

-- `memcmp` returns 0 exactly if the regions agree in the bytes that its 16-bit counter reaches.
memcmp-zero : (p q num : ℕ) (m : Mem8) → (memcmp p q num m ≡ 0) ↔ SameBytes p q (num % 2 ^ 16) m
unfolding memcmp
memcmp-zero p q num m = (memcmp_from_sound _ p q m, memcmp_from_complete _ p q m)
