-- ===== src/Memory/Bytes/Fill.antt =====
-- `memset` (source/kernel/core/memory.c) fills exactly its region, on every path.
use waffle_os.Common.{
  ℕ, zero, suc, ◌+◌, ◌-◌, ◌*◌, ◌/◌, ◌%◌, ◌^◌, ◌≤◌, ◌<◌, ◌≡◌, refl, inl, inr, Bool, true, ◌&&◌, ◌||◌,
  ltb, leb, ◌==◌, if◌then◌else◌, sub32, arith, Bool-cases, fun_ext, ap, ◌∙◌, ==_iff, every_under,
  every_under_lem, Bool, true,
}
use waffle_os.Memory.Bytes.{
  Mem8, wsize, write_word, spread, fill_words, fill_aligned, fill_ends, memset,
}

-- The memory with the byte `c` at the `n` addresses from `s` on.
abbrev pub filled : ℕ → ℕ → ℕ → Mem8 → Mem8
filled s c n m x = if leb s x && ltb x (s + n) then c else m x

-- The pattern word is the byte four times over.
is_spread : ℕ → Bool
unfolding spread
is_spread c = spread c == c * 0x01010101

every_spread : every_under is_spread 256 ≡ true
unfolding every_under is_spread
every_spread = refl

spread-eq : (c : ℕ) → c < 256 → spread c ≡ c * 0x01010101
unfolding is_spread
spread-eq c h =
    (==_iff (spread c) (c * 0x01010101)).0 (every_under_lem is_spread 256 c h every_spread)

fill_word-filled :
    (s c : ℕ) (m : Mem8) (x : ℕ)
    → c < 256
    → (w : ℕ) → w ≡ c * 0x01010101
    → write_word m s (w % 256) (w / 2 ^ 8 % 256) (w / 2 ^ 16 % 256) (w / 2 ^ 24 % 256) x
      ≡ filled s c 4 m x
unfolding write_word
fill_word-filled s c m x h w e =
    let b0 : w % 256 ≡ c = omega arith in
    let b1 : w / 2 ^ 8 % 256 ≡ c = omega arith in
    let b2 : w / 2 ^ 16 % 256 ≡ c = omega arith in
    let b3 : w / 2 ^ 24 % 256 ≡ c = omega arith in rw (b0, b1, b2, b3) (ground arith)

filled-filled :
    (s c a b t : ℕ) (m : Mem8) → a + b ≡ t → filled (s + a) c b (filled s c a m) ≡ filled s c t m
filled-filled s c a b t m e = fun_ext (λ x. ground arith)

fill_words-filled :
    (n s c : ℕ) (m : Mem8) → c < 256 → fill_words n s (spread c) m ≡ filled s c (n * wsize) m
unfolding fill_words
fill_words-filled zero s c m h = fun_ext (λ x. ground arith)
fill_words-filled (suc n) s c m h =
    fill_words-filled n (s + wsize) c _ h
    ∙ ap (filled (s + wsize) c (n * wsize))
        (fun_ext (λ x. fill_word-filled s c m x h (spread c) (spread-eq c h)))
    ∙ filled-filled s c wsize (n * wsize) (suc n * wsize) m (omega arith)

-- The first and the last `k` bytes of the region are written.
abbrev ends : ℕ → ℕ → ℕ → ℕ → Mem8 → Mem8
ends s c n k m x =
    if (leb s x && ltb x (s + k)) || (leb (s + n) (x + k) && ltb x (s + n)) then c else m x

fill_ends-ends :
    (s c n k : ℕ) (m : Mem8) → k < n → fill_ends s c n k (ends s c n k m) ≡ ends s c n (suc k) m
unfolding fill_ends
fill_ends-ends s c n k m h = fun_ext (λ x. ground arith)

ends_one : (s c n : ℕ) (m : Mem8) → 0 < n → fill_ends s c n 0 m ≡ ends s c n 1 m
unfolding fill_ends
ends_one s c n m h = fun_ext (λ x. ground arith)

ends_three :
    (s c n : ℕ) (m : Mem8)
    → 3 ≤ n
    → fill_ends s c n 2 (fill_ends s c n 1 (fill_ends s c n 0 m)) ≡ ends s c n 3 m
ends_three s c n m h =
    ap (λ m. fill_ends s c n 2 (fill_ends s c n 1 m)) (ends_one s c n m (omega arith))
    ∙ ap (λ m. fill_ends s c n 2 m) (fill_ends-ends s c n 1 m (omega arith))
    ∙ fill_ends-ends s c n 2 m (omega arith)

ends_four :
    (s c n : ℕ) (m : Mem8)
    → 4 ≤ n
    → fill_ends s c n 3 (fill_ends s c n 2 (fill_ends s c n 1 (fill_ends s c n 0 m)))
      ≡ ends s c n 4 m
ends_four s c n m h =
    ap (λ m. fill_ends s c n 3 m) (ends_three s c n m (omega arith))
    ∙ fill_ends-ends s c n 3 m (omega arith)

fill_aligned-filled :
    (s c n : ℕ) (m : Mem8) → c < 256 → 8 < n → fill_aligned s c n (ends s c n 4 m) ≡ filled s c n m
unfolding fill_aligned
fill_aligned-filled s c n m h long =
    let k = sub32 0 s % 4 in
    let rest = n - k in
    fill_words-filled ((rest - rest % 4) / 4) (s + k) c _ h ∙ fun_ext (λ x. ground arith)

-- A region of at most twice `k` bytes is all ends.
ends-filled : (s c n k : ℕ) (m : Mem8) → n ≤ k + k → k ≤ n → ends s c n k m ≡ filled s c n m
ends-filled s c n k m short h = fun_ext (λ x. ground arith)

-- `memset` writes the low byte of `value` to the `n` addresses from `s` on and to no other, for
-- every length and alignment: the paths for short regions, the overlapping stores at both ends
-- and the loop over aligned words all come to this.
pub memset-filled : (s value n : ℕ) (m : Mem8) → memset s value n m ≡ filled s (value % 256) n m
unfolding memset
memset-filled s value n m =
    let c = value % 256 in
    let byte : c < 256 = omega arith in
    elim (Bool-cases (n == 0)) [
      | inl none ↦ rw none (fun_ext (λ x. ground arith))
      | inr full ↦ elim (Bool-cases (leb n 2)) [
        | inl two ↦
            rw (full, two)
              (ends_one s c n m (ground arith)
                ∙ ends-filled s c n 1 m (ground arith) (ground arith))
        | inr two ↦ elim (Bool-cases (leb n 6)) [
          | inl six ↦
              rw (full, two, six)
                (ends_three s c n m (ground arith)
                  ∙ ends-filled s c n 3 m (ground arith) (ground arith))
          | inr six ↦ elim (Bool-cases (leb n 8)) [
            | inl eight ↦
                rw (full, two, six, eight)
                  (ends_four s c n m (ground arith)
                    ∙ ends-filled s c n 4 m (ground arith) (ground arith))
            | inr eight ↦
                rw (full, two, six, eight)
                  (ap (λ m. fill_aligned s c n m) (ends_four s c n m (ground arith))
                    ∙ fill_aligned-filled s c n m byte (ground arith))
          ]
        ]
      ]
    ]
