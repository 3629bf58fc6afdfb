-- ===== src/Fat/Reading.antt =====
-- Reading through the sectors of a file (`FAT_Read` of source/kernel/drivers/fat.c).
use waffle_os.Common.{
  ℕ, zero, suc, ◌+◌, ◌-◌, ◌*◌, ◌%◌, ◌^◌, ◌≤◌, ◌<◌, ◌≡◌, refl, min, true, false, not, ◌||◌, List, [],
  ◌∷◌, ◌++◌, Option, leb, ◌==◌, if◌then◌else◌, take, drop, length, arith, ap, sym, subst, ◌∙◌,
  add32, sub32, Bool-cases, inl, inr, take_append_le, take_append_ge, take_all, drop_append_le,
  length-drop,
}
use waffle_os.Fat.{FileData, Volume, next_sector, read_loop, fat_read}
use waffle_os.Fat.Rounds.{read_loop_none, round_on, round_last, read_loop-round}

abbrev pub bytes_of : List (List ℕ) → List ℕ
bytes_of [] = []
bytes_of (sector ∷ rest) = sector ++ bytes_of rest

take_inside :
    (m o : ℕ) (s rest : List ℕ) → o + m ≤ length s → take m (drop o s) ≡ take m (drop o (s ++ rest))
take_inside m o s rest h =
    let len = length-drop o s in
    sym (
      ap (take m) (drop_append_le o s rest (omega arith))
      ∙ take_append_le m (drop o s) rest (omega (arith, len)))

take_across :
    (m o left : ℕ) (s rest : List ℕ)
    → o + left ≡ length s
    → left ≤ m
    → take left (drop o s) ++ take (m - left) (drop 0 rest) ≡ take m (drop o (s ++ rest))
take_across m o left s rest at long =
    let len = length-drop o s in
    let same : length (drop o s) ≡ left = omega (arith, len) in
    ap (λ t. t ++ take (m - left) rest) (take_all left (drop o s) (omega (arith, len)))
    ∙ ap (λ k. drop o s ++ take (m - k) rest) (sym same)
    ∙ sym (
        ap (take m) (drop_append_le o s rest (omega arith))
        ∙ take_append_ge m (drop o s) rest (omega (arith, len)))

module _ (read_sector : ℕ → Option (List ℕ)) (v : Volume) where
  -- The buffer holds the first of the sectors, and moving on reads the next one, where there is one.
  abbrev pub Chain : FileData → List (List ℕ) → Type 0
  Chain fd [] = ⊥
  Chain fd (s ∷ []) = (fd.buffer ≡ s) × (length s ≡ 512)
  Chain fd (s ∷ t ∷ rest) =
      (fd.buffer ≡ s)
      × (length s ≡ 512)
      × (fd' : FileData) × ((p : ℕ)
          → next_sector read_sector v fd.handle (record fd { position = p })
            ≡ (true, record fd' { position = p }))
      × Chain fd' (t ∷ rest)

  Chain-position :
      (fd : FileData) (p : ℕ) (ss : List (List ℕ))
      → Chain fd ss
      → Chain (record fd { position = p }) ss
  Chain-position fd p [] c = c
  Chain-position fd p (s ∷ []) c = c
  Chain-position fd p (s ∷ t ∷ rest) c = c

  Chain-head :
      (fd : FileData) (s : List ℕ) (ss : List (List ℕ))
      → Chain fd (s ∷ ss)
      → (fd.buffer ≡ s) × (length s ≡ 512)
  Chain-head fd s [] c = c
  Chain-head fd s (t ∷ rest) (e, len, fd', goes, c) = (e, len)

  -- `n` bytes from the position on, in what the sectors hold.
  abbrev pub Reads : FileData → List (List ℕ) → ℕ → FileData × List ℕ → Type 0
  Reads fd ss n r =
      (r.1 ≡ take n (drop (fd.position % 512) (bytes_of ss))) × (r.0.position ≡ fd.position + n)

  -- The round that ends in the first sector.
  Reads-inside :
      (fuel n : ℕ) (fd : FileData) (s : List ℕ) (ss : List (List ℕ))
      → Chain fd (s ∷ ss)
      → fd.position % 512 + suc n ≤ 512
      → fd.position + suc n < 2 ^ 32
      → Reads fd (s ∷ ss) (suc n) (read_loop read_sector (suc fuel) (suc n) v fd)
  Reads-inside fuel n fd s ss c short word =
      let (holds, len) = Chain-head fd s ss c in
      let o = fd.position % 512 in
      let last = round_last read_sector v fuel (suc n) fd in
      rw (read_loop-round read_sector v fuel n (suc n) fd (omega arith)) (
        last.0
            ∙ ap (λ b. take (suc n) (drop o b)) holds
            ∙ take_inside (suc n) o s (bytes_of ss) (omega arith),
        last.1 ∙ omega arith,
      )

  -- The round that goes on in the second sector.
  Reads-across :
      (fuel n left : ℕ) (fd fd2 : FileData) (s : List ℕ) (ss : List (List ℕ))
      → 512 - fd.position % 512 ≡ left
      → left < suc n
      → fd.position + suc n < 2 ^ 32
      → fd.buffer ≡ s
      → length s ≡ 512
      → next_sector read_sector v fd.handle (record fd { position = add32 fd.position left })
        ≡ (true, fd2)
      → fd2.position ≡ fd.position + left
      → Reads fd2 ss (suc n - left) (read_loop read_sector fuel (suc n - left) v fd2)
      → Reads fd (s ∷ ss) (suc n) (read_loop read_sector (suc fuel) (suc n) v fd)
  Reads-across fuel n left fd fd2 s ss at long word holds len goes place (bytes, ends) =
      let o = fd.position % 512 in
      let start : fd2.position % 512 ≡ 0 = omega arith in
      rw
        (
          read_loop-round read_sector v fuel n left fd (omega arith),
          round_on read_sector v fuel (suc n) left fd fd2 at goes,
        )
        (
          ap (λ b. take left (drop o b) ++ (read_loop read_sector fuel (suc n - left) v fd2).1)
                holds
              ∙ ap (λ t. take left (drop o s) ++ t) bytes
              ∙ ap (λ k. take left (drop o s) ++ take (suc n - left) (drop k (bytes_of ss))) start
              ∙ take_across (suc n) o left s (bytes_of ss) (omega arith) (omega arith),
          ends ∙ omega arith,
        )

  read_loop-Reads :
      (fuel n : ℕ) (fd : FileData) (s : List ℕ) (ss : List (List ℕ))
      → n ≤ fuel
      → Chain fd (s ∷ ss)
      → fd.position % 512 + n ≤ 512 * suc (length ss)
      → fd.position + n < 2 ^ 32
      → Reads fd (s ∷ ss) n (read_loop read_sector fuel n v fd)
  read_loop-Reads fuel zero fd s ss h c fits word =
      rw (read_loop_none read_sector v fuel fd) (refl, omega arith)
  read_loop-Reads zero (suc n) fd s ss h c fits word = absurd (omega arith)
  read_loop-Reads (suc fuel) (suc n) fd s [] h c fits word =
      Reads-inside fuel n fd s [] c (omega arith) word
  read_loop-Reads (suc fuel) (suc n) fd s (t ∷ rest) h (holds, len, fd', goes, c) fits word =
      let left : ℕ = 512 - fd.position % 512 in
      let p : ℕ = add32 fd.position left in
      elim (Bool-cases (leb (suc n) left)) [
        | inl short ↦
            Reads-inside fuel n fd s (t ∷ rest) (holds, len, fd', goes, c) (ground arith) word
        | inr long ↦
            let over : left < suc n = ground arith in
            let next : p ≡ fd.position + left = omega arith in
            let fd2 : FileData = record fd' { position = p } in
            Reads-across fuel n left fd fd2 s (t ∷ rest) refl over word holds len (goes p) next (
              read_loop-Reads fuel (suc n - left) fd2 t rest (omega arith)
                (Chain-position fd' p (t ∷ rest) c) (omega arith) (omega arith))
      ]

  -- Where the sectors from the buffer on hold as many bytes as are wanted, the file is no directory
  -- and its size is not passed, `FAT_Read` gives these bytes in the order of the sectors, from the
  -- position on, and moves the position behind them.
  pub fat_read-Reads :
      (n : ℕ) (fd : FileData) (s : List ℕ) (ss : List (List ℕ))
      → Chain fd (s ∷ ss)
      → fd.is_directory ≡ false
      → fd.position ≤ fd.size
      → fd.size < 2 ^ 32
      → fd.position % 512 + min n (fd.size - fd.position) ≤ 512 * suc (length ss)
      → Reads fd (s ∷ ss) (min n (fd.size - fd.position)) (fat_read read_sector n v fd)
  unfolding fat_read
  fat_read-Reads n fd s ss c plain_file inside small fits =
      let m : ℕ = min n (fd.size - fd.position) in
      let bound : min n (sub32 fd.size fd.position) ≡ m = omega arith in
      let bounded : (if not fd.is_directory || not (fd.size == 0)
            then min n (sub32 fd.size fd.position)
            else n)
          ≡ m =
        ap (λ b. if not b || not (fd.size == 0) then min n (sub32 fd.size fd.position) else n)
          plain_file
        ∙ bound in
      subst (λ k. Reads fd (s ∷ ss) m (read_loop read_sector k k v fd)) (sym bounded)
        (read_loop-Reads m m fd s ss (omega arith) c fits (omega arith))
