-- ===== src/Memory/Bytes/Copy.antt =====
-- `memcpy` (source/kernel/core/memory.c) copies also where the regions overlap.
use waffle_os.Common.{
  ℕ, zero, suc, ◌+◌, ◌-◌, ◌*◌, ◌/◌, ◌%◌, ◌≤◌, ◌<◌, ◌≡◌, inl, inr, ◌&&◌, ◌||◌, ltb, leb, ◌==◌,
  if◌then◌else◌, arith, Bool-cases, fun_ext, ap, ◌∙◌, ◌≢◌,
}
use waffle_os.Memory.Bytes.{
  Mem8, wsize, write, write_word, copy_up, copy_words_up, copy_down, copy_words_down, head_up,
  head_down, copy_forward, copy_backward, memcpy,
}

-- The memory after `n` bytes at `src` have moved to `dst` in one step.
abbrev pub moved : ℕ → ℕ → ℕ → Mem8 → Mem8
moved dst src n m x = if leb dst x && ltb x (dst + n) then m (x - dst + src) else m x

write_byte-moved : (dst src : ℕ) (m : Mem8) (x : ℕ) → write m dst (m src) x ≡ moved dst src 1 m x
unfolding write
write_byte-moved dst src m x = ground arith

write_word-moved :
    (dst src : ℕ) (m : Mem8) (x : ℕ)
    → write_word m dst (m src) (m (src + 1)) (m (src + 2)) (m (src + 3)) x ≡ moved dst src 4 m x
unfolding write_word
write_word-moved dst src m x = ground arith

-- Two moves one after the other, upwards and downwards.
moved-moved_up :
    (dst src a b : ℕ) (m : Mem8) (x : ℕ)
    → dst < src
    → moved (dst + a) (src + a) b (moved dst src a m) x ≡ moved dst src (a + b) m x
moved-moved_up dst src a b m x h = ground arith

moved-moved_down :
    (dst src a b : ℕ) (m : Mem8) (x : ℕ)
    → src < dst
    → moved dst src b (moved (dst + b) (src + b) a m) x ≡ moved dst src (a + b) m x
moved-moved_down dst src a b m x h = ground arith

pub moved_none : (dst src : ℕ) (m : Mem8) → m ≡ moved dst src 0 m
moved_none dst src m = fun_ext (λ x. ground arith)

-- One more chunk of `a` bytes in front, going up; `b` bytes follow.
pub chunk_up :
    (dst src a b c : ℕ) (m : Mem8)
    → dst < src
    → a + b ≡ c
    → moved (dst + a) (src + a) b (moved dst src a m) ≡ moved dst src c m
chunk_up dst src a b c m h e = rw (← e) (fun_ext (λ x. moved-moved_up dst src a b m x h))

chunk_down :
    (dst src a b c : ℕ) (m : Mem8)
    → src < dst
    → a + b ≡ c
    → moved dst src b (moved (dst + b) (src + b) a m) ≡ moved dst src c m
chunk_down dst src a b c m h e = rw (← e) (fun_ext (λ x. moved-moved_down dst src a b m x h))

copy_up-moved : (t dst src : ℕ) (m : Mem8) → dst < src → copy_up t dst src m ≡ moved dst src t m
unfolding copy_up
copy_up-moved zero dst src m h = moved_none dst src m
copy_up-moved (suc t) dst src m h =
    copy_up-moved t (dst + 1) (src + 1) (write m dst (m src)) (omega arith)
    ∙ ap (moved (dst + 1) (src + 1) t) (fun_ext (write_byte-moved dst src m))
    ∙ chunk_up dst src 1 t (suc t) m h (omega arith)

copy_words_up-moved :
    (t dst src : ℕ) (m : Mem8) → dst < src → copy_words_up t dst src m ≡ moved dst src (t * wsize) m
unfolding copy_words_up
copy_words_up-moved zero dst src m h = moved_none dst src m
copy_words_up-moved (suc t) dst src m h =
    copy_words_up-moved t (dst + wsize) (src + wsize) _ (omega arith)
    ∙ ap (moved (dst + wsize) (src + wsize) (t * wsize)) (fun_ext (write_word-moved dst src m))
    ∙ chunk_up dst src wsize (t * wsize) (suc t * wsize) m h (omega arith)

copy_down-moved :
    (t dst src : ℕ) (m : Mem8) → src < dst → copy_down t (dst + t) (src + t) m ≡ moved dst src t m
unfolding copy_down
copy_down-moved zero dst src m h = moved_none dst src m
copy_down-moved (suc t) dst src m h =
    let d : dst + suc t - 1 ≡ dst + t = omega arith in
    let s : src + suc t - 1 ≡ src + t = omega arith in
    rw (d, s)
      (copy_down-moved t dst src (write m (dst + t) (m (src + t))) h
        ∙ ap (moved dst src t) (fun_ext (write_byte-moved (dst + t) (src + t) m))
        ∙ chunk_down dst src 1 t (suc t) m h (omega arith))

copy_down-moved_at :
    (t dst src d s : ℕ) (m : Mem8)
    → src < dst
    → d ≡ dst + t
    → s ≡ src + t
    → copy_down t d s m ≡ moved dst src t m
copy_down-moved_at t dst src d s m h ed es = rw (ed, es) (copy_down-moved t dst src m h)

copy_words_down-moved :
    (t dst src : ℕ) (m : Mem8)
    → src < dst
    → copy_words_down t (dst + t * wsize) (src + t * wsize) m ≡ moved dst src (t * wsize) m
unfolding copy_words_down
copy_words_down-moved zero dst src m h = moved_none dst src m
copy_words_down-moved (suc t) dst src m h =
    let d : dst + suc t * wsize - wsize ≡ dst + t * wsize = omega arith in
    let s : src + suc t * wsize - wsize ≡ src + t * wsize = omega arith in
    rw (d, s)
      (copy_words_down-moved t dst src _ h
        ∙ ap (moved dst src (t * wsize))
            (fun_ext (write_word-moved (dst + t * wsize) (src + t * wsize) m))
        ∙ chunk_down dst src wsize (t * wsize) (suc t * wsize) m h (omega arith))

copy_words_down-moved_at :
    (t dst src d s : ℕ) (m : Mem8)
    → src < dst
    → d ≡ dst + t * wsize
    → s ≡ src + t * wsize
    → copy_words_down t d s m ≡ moved dst src (t * wsize) m
copy_words_down-moved_at t dst src d s m h ed es = rw (ed, es) (copy_words_down-moved t dst src m h)

-- The bytes before the first word are part of the region, and the do-while loop is not entered at 0.
head_up-le : (dst src n : ℕ) → n ≢ 0 → head_up dst src n ≤ n
unfolding head_up
head_up-le dst src n e = ground arith

head_down-le : (dst src n : ℕ) → n ≢ 0 → head_down dst src n ≤ n
unfolding head_down
head_down-le dst src n e = ground arith

copy_forward-moved :
    (dst src n : ℕ) (m : Mem8) → dst < src → n ≢ 0 → copy_forward dst src n m ≡ moved dst src n m
unfolding copy_forward
copy_forward-moved dst src n m h e =
    let t = head_up dst src n in
    let left = n - t in
    let w = left / wsize in
    let fits : t ≤ n = head_up-le dst src n e in
    let m' = copy_up t dst src m in
    copy_up-moved (left % 4) (dst + t + w * wsize) (src + t + w * wsize) _ (omega arith)
    ∙ ap (moved (dst + t + w * wsize) (src + t + w * wsize) (left % 4))
        (copy_words_up-moved w (dst + t) (src + t) m' (omega arith))
    ∙ chunk_up (dst + t) (src + t) (w * wsize) (left % 4) left m' (omega arith) (omega arith)
    ∙ ap (moved (dst + t) (src + t) left) (copy_up-moved t dst src m h)
    ∙ chunk_up dst src t left n m h (omega arith)

copy_backward-moved :
    (dst src n : ℕ) (m : Mem8)
    → src < dst
    → n ≢ 0
    → copy_backward (dst + n) (src + n) n m ≡ moved dst src n m
unfolding copy_backward
copy_backward-moved dst src n m h e =
    let t = head_down (dst + n) (src + n) n in
    let left = n - t in
    let w = left / wsize in
    let r = left % 4 in
    let fits : t ≤ n = head_down-le (dst + n) (src + n) n e in
    let m' = copy_down t (dst + n) (src + n) m in
    copy_down-moved_at r dst src _ _ _ h (omega arith) (omega arith)
    ∙ ap (moved dst src r) (
        copy_words_down-moved_at w (dst + r) (src + r) _ _ m' (omega arith) (omega arith)
          (omega arith))
    ∙ chunk_down dst src (w * wsize) r left m' h (omega arith)
    ∙ ap (moved dst src left) (
        copy_down-moved_at t (dst + left) (src + left) _ _ m (omega arith) (omega arith)
          (omega arith))
    ∙ chunk_down dst src t left n m h (omega arith)

-- `memcpy` gives the memory in which the `n` bytes at `src` have moved to `dst` at once and nothing
-- else has changed, for all addresses and lengths, overlapping regions included.
pub memcpy-moved : (dst src n : ℕ) (m : Mem8) → memcpy dst src n m ≡ moved dst src n m
unfolding memcpy
memcpy-moved dst src n m = elim (Bool-cases (n == 0 || dst == src)) [
  | inl idle ↦ rw idle (fun_ext (λ x. ground arith))
  | inr busy ↦ elim (Bool-cases (ltb dst src)) [
    | inl up ↦ rw (busy, up) (copy_forward-moved dst src n m (ground arith) (ground arith))
    | inr down ↦ rw (busy, down) (copy_backward-moved dst src n m (ground arith) (ground arith))
  ]
]
