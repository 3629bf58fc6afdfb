-- ===== src/Memory/Bytes.antt =====
-- The byte routines of source/kernel/core/memory.c, `memset`, `memcpy` and `memcmp`, over a
-- byte-addressed memory. A pointer is its address, and the regions do not wrap round the end of
-- the address space. `x & 3` is written `x % 4`, and two addresses agree in their low bits
-- (`!((t ^ dst) & 3)`) if these are equal.
pub mod Copy
pub mod Fill
pub mod Compare
mod Tests
use Prim.Native.Nat.{bit_or}
use waffle_os.Common.{
  ℕ, zero, suc, ◌+◌, ◌-◌, ◌*◌, ◌/◌, ◌%◌, ◌^◌, Bool, true, false, not, ◌&&◌, ◌||◌, ltb, leb, ◌==◌,
  if◌then◌else◌, sub32, u32_mod,
}

abbrev pub Mem8 : Type 0
Mem8 = ℕ → ℕ

abbrev pub wsize : ℕ
wsize = 4

-- `*(uint8_t*)a = v`
unfoldable pub write : Mem8 → ℕ → ℕ → Mem8
write m a v x = if x == a then v else m x

-- A store of a word is a store of its four bytes, the lowest first.
unfoldable pub write_word : Mem8 → ℕ → ℕ → ℕ → ℕ → ℕ → Mem8
unfolding write
write_word m a b0 b1 b2 b3 = write (write (write (write m a b0) (a + 1) b1) (a + 2) b2) (a + 3) b3

-- `wc |= (wc << 8) | (wc << 16) | (wc << 24)` on `wc = c & 0xFF`
pub spread : ℕ → ℕ
spread c =
    bit_or (c % 256) (bit_or (bit_or (c % 256 * 2 ^ 8) (c % 256 * 2 ^ 16)) (c % 256 * 2 ^ 24))

-- `for (; n; n--, ws++) *ws = wc;`
pub fill_words : ℕ → ℕ → ℕ → Mem8 → Mem8
unfolding write_word
fill_words zero ws wc m = m
fill_words (suc n) ws wc m =
    fill_words n (ws + wsize) wc
      (write_word m ws (wc % 256) (wc / 2 ^ 8 % 256) (wc / 2 ^ 16 % 256) (wc / 2 ^ 24 % 256))

-- From `k = -(uintptr_t)s & 3` on.
pub fill_aligned : ℕ → ℕ → ℕ → Mem8 → Mem8
unfolding fill_words spread
fill_aligned s c n m =
    let k = sub32 0 s % 4 in
    let rest = n - k in fill_words ((rest - rest % 4) / 4) (s + k) (spread c) m

-- `s[i] = s[n-1-i] = c`
pub fill_ends : ℕ → ℕ → ℕ → ℕ → Mem8 → Mem8
unfolding write
fill_ends s c n i m = write (write m (s + (n - 1 - i)) c) (s + i) c

pub memset : ℕ → ℕ → ℕ → Mem8 → Mem8
unfolding fill_ends fill_aligned
memset s value n m =
    let c = value % 256 in
    let m1 = fill_ends s c n 0 m in
    let m3 = fill_ends s c n 2 (fill_ends s c n 1 m1) in
    let m4 = fill_ends s c n 3 m3 in
    if n == 0
    then m
    else if leb n 2
    then m1
    else if leb n 6
    then m3
    else if leb n 8
    then m4
    else fill_aligned s c n m4

-- `TLOOP1` runs its body before it tests `--t`: from 0 it would run 2 ^ 32 times.
abbrev pub at_least_once : ℕ → ℕ
at_least_once t = if t == 0 then u32_mod else t

-- `*dst++ = *src++`, `t` times
pub copy_up : ℕ → ℕ → ℕ → Mem8 → Mem8
unfolding write
copy_up zero dst src m = m
copy_up (suc t) dst src m = copy_up t (dst + 1) (src + 1) (write m dst (m src))

abbrev copy_word : ℕ → ℕ → Mem8 → Mem8
copy_word dst src m = write_word m dst (m src) (m (src + 1)) (m (src + 2)) (m (src + 3))

pub copy_words_up : ℕ → ℕ → ℕ → Mem8 → Mem8
unfolding write_word
copy_words_up zero dst src m = m
copy_words_up (suc t) dst src m = copy_words_up t (dst + wsize) (src + wsize) (copy_word dst src m)

-- `*--dst = *--src`, `t` times
pub copy_down : ℕ → ℕ → ℕ → Mem8 → Mem8
unfolding write
copy_down zero dst src m = m
copy_down (suc t) dst src m = copy_down t (dst - 1) (src - 1) (write m (dst - 1) (m (src - 1)))

pub copy_words_down : ℕ → ℕ → ℕ → Mem8 → Mem8
unfolding write_word
copy_words_down zero dst src m = m
copy_words_down (suc t) dst src m =
    copy_words_down t (dst - wsize) (src - wsize) (copy_word (dst - wsize) (src - wsize) m)

abbrev pub unaligned : ℕ → ℕ → Bool
unaligned src dst = not (src % 4 == 0) || not (dst % 4 == 0)

-- The bytes that are copied one by one before the words, 0 where both pointers are aligned.
pub head_up : ℕ → ℕ → ℕ → ℕ
head_up dst src n =
    if unaligned src dst
    then at_least_once (if not (src % 4 == dst % 4) || ltb n wsize then n else wsize - src % 4)
    else 0

pub copy_forward : ℕ → ℕ → ℕ → Mem8 → Mem8
unfolding head_up copy_up copy_words_up
copy_forward dst src n m =
    let t = head_up dst src n in
    let left = n - t in
    let w = left / wsize in
    copy_up (left % 4) (dst + t + w * wsize) (src + t + w * wsize)
      (copy_words_up w (dst + t) (src + t) (copy_up t dst src m))

-- `dst` and `src` point behind the regions here.
pub head_down : ℕ → ℕ → ℕ → ℕ
head_down dst src n =
    if unaligned src dst
    then at_least_once (if not (src % 4 == dst % 4) || leb n wsize then n else src % 4)
    else 0

pub copy_backward : ℕ → ℕ → ℕ → Mem8 → Mem8
unfolding head_down copy_down copy_words_down
copy_backward dst src n m =
    let t = head_down dst src n in
    let left = n - t in
    let w = left / wsize in
    copy_down (left % 4) (dst - t - w * wsize) (src - t - w * wsize)
      (copy_words_down w (dst - t) (src - t) (copy_down t dst src m))

pub memcpy : ℕ → ℕ → ℕ → Mem8 → Mem8
unfolding copy_forward copy_backward
memcpy dst src n m =
    if n == 0 || dst == src
    then m
    else if ltb dst src
    then copy_forward dst src n m
    else copy_backward (dst + n) (src + n) n m

-- `for (uint16_t i = 0; i < num; i++)`, with the rounds that are left
pub memcmp_from : ℕ → ℕ → ℕ → Mem8 → ℕ
memcmp_from zero p q m = 0
memcmp_from (suc n) p q m =
    let rest = memcmp_from n (p + 1) (q + 1) m in if not (m p == m q) then 1 else rest

-- `num` is a `uint16_t`: a longer count is cut.
pub memcmp : ℕ → ℕ → ℕ → Mem8 → ℕ
unfolding memcmp_from
memcmp p q num m = memcmp_from (num % 2 ^ 16) p q m
