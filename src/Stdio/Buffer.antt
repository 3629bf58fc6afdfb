-- ===== src/Stdio/Buffer.antt =====
-- `buffer_putc` and `vsnprintf` of source/kernel/core/stdio.c. `size` is below 2 ^ 31, so that the
-- casts to `int` keep it. A write past the end of the array `str` would change nothing here: the
-- laws ask for an array of at least `size` bytes.
use waffle_os.Common.{
  ℕ, zero, suc, ◌+◌, ◌-◌, ◌≤◌, ◌<◌, ◌≡◌, refl, ◌&&◌, List, [], ◌∷◌, Option, some, arith, true, ltb,
  leb, if◌then◌else◌, ◌>>=◌, set, get_or, length, length-set, get_or-set_self, get_or-set_ne, min,
  Bool-cases, inl, inr, ◌==◌, ◌∙◌,
}
use waffle_os.Stdio.Format.{Arg, Machine, start, run}

pub record Buffer : Type 0 where
  pub bytes : List ℕ
  pub pos : ℕ

pub buffer_putc : ℕ → Buffer → ℕ → Buffer
buffer_putc size b c = record {
  bytes = if ltb (b.pos + 1) size then set b.bytes b.pos c else b.bytes;
  pos = b.pos + 1;
}

pub put_all : ℕ → Buffer → List ℕ → Buffer
unfolding buffer_putc
put_all size b [] = b
put_all size b (c ∷ cs) = put_all size (buffer_putc size b c) cs

-- The NUL after the loop, and `return pos`.
pub terminate : ℕ → Buffer → ℕ × List ℕ
terminate size b = (
  b.pos,
  if ltb b.pos size
      then set b.bytes b.pos 0
      else if ltb 0 size
      then set b.bytes (size - 1) 0
      else b.bytes,
)

pub vsnprintf : List ℕ → ℕ → List ℕ → List Arg → Option (ℕ × List ℕ)
unfolding put_all terminate start run
vsnprintf str size fmt args = do
  (m, chars) ← run (start args) fmt
  some (terminate size (put_all size (record { bytes = str; pos = 0 }) chars))

get_or-set :
    (xs : List ℕ) (i j v : ℕ)
    → i < length xs
    → get_or (set xs i v) j 0 ≡ (if i == j then v else get_or xs j 0)
get_or-set xs i j v h = elim (Bool-cases (i == j)) [
  | inl same ↦ let e : i ≡ j = ground arith in rw (same, ← e) (get_or-set_self xs i v 0 h)
  | inr other ↦ rw other (get_or-set_ne xs {i = i} {j = j} v 0 (ground arith))
]

get_or-cons :
    (c : ℕ) (cs : List ℕ) (i : ℕ)
    → get_or (c ∷ cs) i 0 ≡ (if i == 0 then c else get_or cs (i - 1) 0)
get_or-cons c cs zero = refl
get_or-cons c cs (suc i) = ground arith

length-put_all :
    (size : ℕ) (b : Buffer) (cs : List ℕ) → length (put_all size b cs).bytes ≡ length b.bytes
unfolding put_all buffer_putc
length-put_all size b [] = refl
length-put_all size b (c ∷ cs) =
    ground (arith, length-put_all size (buffer_putc size b c) cs, length-set b.bytes b.pos c)

pos-put_all : (size : ℕ) (b : Buffer) (cs : List ℕ) → (put_all size b cs).pos ≡ b.pos + length cs
unfolding put_all buffer_putc
pos-put_all size b [] = omega arith
pos-put_all size b (c ∷ cs) = ground (arith, pos-put_all size (buffer_putc size b c) cs)

-- Only places below `size - 1` are written.
get_or-put_all :
    (size : ℕ) (b : Buffer) (cs : List ℕ) (i : ℕ)
    → size ≤ length b.bytes
    → get_or (put_all size b cs).bytes i 0 ≡ (
        if leb b.pos i && (ltb i (b.pos + length cs) && ltb (i + 1) size)
        then get_or cs (i - b.pos) 0
        else get_or b.bytes i 0)
unfolding put_all buffer_putc
get_or-put_all size b [] i h = ground arith
get_or-put_all size b (c ∷ cs) i h = ground (
  arith,
  get_or-put_all size (buffer_putc size b c) cs i,
  length-set b.bytes b.pos c,
  get_or-set b.bytes b.pos i c,
  get_or-cons c cs (i - b.pos),
)

-- What `vsnprintf` leaves for the characters `chars`: their number, and an array of the old length
-- that begins with as many of them as fit before a NUL and is unchanged from index `size` on.
pub record Printed (str : List ℕ) (size : ℕ) (chars : List ℕ) (r : ℕ × List ℕ) : Type 0 where
  pub returned : r.0 ≡ length chars
  pub same_length : length r.1 ≡ length str
  pub prefix : (i : ℕ) → i < length chars → i + 1 < size → get_or r.1 i 0 ≡ get_or chars i 0
  pub ended : get_or r.1 (min (length chars) (size - 1)) 0 ≡ 0
  pub outside : (i : ℕ) → size ≤ i → get_or r.1 i 0 ≡ get_or str i 0

put_start : List ℕ → ℕ → List ℕ → Buffer
put_start str size chars = put_all size (record { bytes = str; pos = 0 }) chars

-- The index of the NUL.
terminate-bytes :
    (size : ℕ) (b : Buffer) → 0 < size → (terminate size b).1 ≡ set b.bytes (min b.pos (size - 1)) 0
unfolding terminate
terminate-bytes size b h = elim (Bool-cases (ltb b.pos size)) [
  | inl fits ↦ let at : min b.pos (size - 1) ≡ b.pos = ground arith in rw (fits, at)
  | inr cut ↦
      let at : min b.pos (size - 1) ≡ size - 1 = ground arith in
      let pos : ltb 0 size ≡ true = ground arith in rw (cut, pos, at)
]

terminate-pos : (size : ℕ) (b : Buffer) → (terminate size b).0 ≡ b.pos
unfolding terminate
terminate-pos size b = refl

get_or-terminate :
    (str : List ℕ) (size : ℕ) (chars : List ℕ) (i : ℕ)
    → 0 < size
    → size ≤ length str
    → get_or (terminate size (put_start str size chars)).1 i 0 ≡ (
        if min (length chars) (size - 1) == i
        then 0
        else if ltb i (length chars) && ltb (i + 1) size
        then get_or chars i 0
        else get_or str i 0)
unfolding put_start
get_or-terminate str size chars i pos room =
    let b : Buffer = put_start str size chars in
    let len : length b.bytes ≡ length str = length-put_all size _ chars in
    let at : b.pos ≡ length chars = pos-put_all size _ chars ∙ omega arith in
    let inner = get_or-put_all size (record { bytes = str; pos = 0 }) chars i room in
    rw
      (
        terminate-bytes size b pos,
        at,
        get_or-set b.bytes (min (length chars) (size - 1)) i 0 (omega arith),
      )
      (ground (arith, inner))

put_all-Printed :
    (str : List ℕ) (size : ℕ) (chars : List ℕ)
    → 0 < size
    → size ≤ length str
    → Printed str size chars (terminate size (put_start str size chars))
unfolding put_start
put_all-Printed str size chars pos room = record {
  returned = ground (
    arith,
    terminate-pos size (put_start str size chars),
    pos-put_all size (record { bytes = str; pos = 0 }) chars,
  );
  same_length =
      rw (terminate-bytes size (put_start str size chars) pos)
        (length-set (put_start str size chars).bytes _ 0 ∙ length-put_all size _ chars);
  prefix = λ i h k. ground (arith, get_or-terminate str size chars i pos room);
  ended = ground (arith, get_or-terminate str size chars (min (length chars) (size - 1)) pos room);
  outside = λ i h. ground (arith, get_or-terminate str size chars i pos room);
}

-- Where the format machine yields the characters `chars`, `vsnprintf` with `size` places, in an
-- array that has as many, returns their number and prints them: as many as fit before a NUL, and
-- nothing behind `size`.
pub vsnprintf-Printed :
    (str : List ℕ) (size : ℕ) (fmt : List ℕ) (args : List Arg) {m : Machine} {chars : List ℕ}
    → 0 < size
    → size ≤ length str
    → run (start args) fmt ≡ some (m, chars)
    → (r : ℕ × List ℕ) × (vsnprintf str size fmt args ≡ some r) × Printed str size chars r
unfolding vsnprintf put_start
vsnprintf-Printed str size fmt args {chars = chars} pos room h =
    (terminate size (put_start str size chars), rw h, put_all-Printed str size chars pos room)
