-- ===== src/Fat/Rounds.antt =====
-- The rounds of the loop of `FAT_Read` (source/kernel/drivers/fat.c).
use waffle_os.Common.{
  ℕ, zero, suc, ◌-◌, ◌%◌, ◌≤◌, ◌≡◌, refl, min, Bool, true, false, List, [], ◌++◌, Option, leb, ◌==◌,
  take, drop, arith, ap, ◌∙◌, add32, Bool-cases, Option-cases, inl, inr, append-nil,
}
use waffle_os.Fat.{
  FileData, Volume, Handle, root, file, read_into, next_place, read_place, next_sector, next_if,
  after_chunk, read_loop,
}

module _ (read_sector : ℕ → Option (List ℕ)) (v : Volume) where
  read_into-position :
      (lba : ℕ) (fd : FileData) → (read_into read_sector lba fd).1.position ≡ fd.position
  unfolding read_into
  read_into-position lba fd = elim (Option-cases (read_sector lba)) [
    | inl fails ↦ rw (read_into, fails) refl
    | inr (sector, serves) ↦ rw (read_into, serves) refl
  ]

  next_place-position : (fd : FileData) → (next_place read_sector v fd).position ≡ fd.position
  unfolding next_place
  next_place-position fd =
      elim (Bool-cases (leb v.sectors_per_cluster (add32 fd.current_sector_in_cluster 1))) [
        | inl last ↦ rw last refl
        | inr more ↦ rw more refl
      ]

  read_place-position : (fd : FileData) → (read_place read_sector v fd).1.position ≡ fd.position
  unfolding read_place
  read_place-position fd = elim (Bool-cases (leb 0xFF8 fd.current_cluster)) [
    | inl ends ↦ rw ends refl
    | inr more ↦ rw more (read_into-position _ fd)
  ]

  next_sector-position :
      (h : Handle) (fd : FileData) → (next_sector read_sector v h fd).1.position ≡ fd.position
  unfolding next_sector
  next_sector-position root fd =
      read_into-position (add32 fd.current_cluster 1)
        (record fd { current_cluster = add32 fd.current_cluster 1 })
  next_sector-position (file i) fd =
      read_place-position (next_place read_sector v fd) ∙ next_place-position fd

  pub read_loop_none : (fuel : ℕ) (fd : FileData) → read_loop read_sector fuel 0 v fd ≡ (fd, [])
  unfolding read_loop
  read_loop_none zero fd = refl
  read_loop_none (suc fuel) fd = refl

  next_if-position :
      (b : Bool) (fd : FileData) → (next_if read_sector b v fd).1.position ≡ fd.position
  unfolding next_if
  next_if-position true fd = next_sector-position fd.handle fd
  next_if-position false fd = refl

  ended :
      (n : ℕ) (chunk : List ℕ) (fuel : ℕ)
      → n - n ≡ 0
      → (r : Bool × FileData) (p : ℕ) → r.1.position ≡ p
      → ((after_chunk read_sector chunk (read_loop read_sector fuel (n - n) v) r).1 ≡ chunk)
        × ((after_chunk read_sector chunk (read_loop read_sector fuel (n - n) v) r).0.position ≡ p)
  unfolding after_chunk
  ended n chunk fuel z (true, fd) p e = rw (z, read_loop_none fuel fd) (append-nil chunk, e)
  ended n chunk fuel z (false, fd) p e = (refl, e)

  -- A round of the loop that takes `t` bytes.
  pub round : ℕ → ℕ → FileData → ℕ → FileData × List ℕ
  round fuel n fd t =
      after_chunk read_sector (take t (drop (fd.position % 512) fd.buffer))
        (read_loop read_sector fuel (n - t) v)
        (next_if read_sector (512 - fd.position % 512 == t) v
          (record fd { position = add32 fd.position t }))

  pub read_loop-round :
      (fuel n t : ℕ) (fd : FileData)
      → min (suc n) (512 - fd.position % 512) ≡ t
      → read_loop read_sector (suc fuel) (suc n) v fd ≡ round fuel (suc n) fd t
  unfolding read_loop round
  read_loop-round fuel n t fd least = ap (round fuel (suc n) fd) least

  -- A round that moves on to another sector.
  pub round_on :
      (fuel n t : ℕ) (fd fd' : FileData)
      → 512 - fd.position % 512 ≡ t
      → next_sector read_sector v fd.handle (record fd { position = add32 fd.position t })
        ≡ (true, fd')
      → round fuel n fd t ≡ (
        (read_loop read_sector fuel (n - t) v fd').0,
        take t (drop (fd.position % 512) fd.buffer) ++ (read_loop read_sector fuel (n - t) v fd').1,
      )
  unfolding round next_if after_chunk
  round_on fuel n t fd fd' at goes =
      let whole : (512 - fd.position % 512 == t) ≡ true = ground arith in
      let chunk = take t (drop (fd.position % 512) fd.buffer) in
      let fd1 = record fd { position = add32 fd.position t } in
      let loop = read_loop read_sector fuel (n - t) v in
      ap (λ b. after_chunk read_sector chunk loop (next_if read_sector b v fd1)) whole
      ∙ ap (after_chunk read_sector chunk loop) goes

  ended_all :
      (n : ℕ) (chunk : List ℕ) (fuel : ℕ)
      → n - n ≡ 0
      → (r : Bool × FileData)
      → after_chunk read_sector chunk (read_loop read_sector fuel (n - n) v) r ≡ (r.1, chunk)
  unfolding after_chunk
  ended_all n chunk fuel z (true, fd) =
      rw (z, read_loop_none fuel fd) (ap (λ c. (fd, c)) (append-nil chunk))
  ended_all n chunk fuel z (false, fd) = refl

  -- A read that one round serves, with what it leaves.
  pub read_loop-once :
      (fuel n : ℕ) (fd : FileData)
      → suc n ≤ 512 - fd.position % 512
      → read_loop read_sector (suc fuel) (suc n) v fd ≡ (
        (next_if read_sector
            (512 - fd.position % 512 == suc n)
            v
            (record fd { position = add32 fd.position (suc n) })).1,
        take (suc n) (drop (fd.position % 512) fd.buffer),
      )
  unfolding round
  read_loop-once fuel n fd fits =
      read_loop-round fuel n (suc n) fd (omega arith)
      ∙ ended_all (suc n) (take (suc n) (drop (fd.position % 512) fd.buffer)) fuel (omega arith) (
          next_if read_sector (512 - fd.position % 512 == suc n) v
            (record fd { position = add32 fd.position (suc n) }))

  -- A round that takes the last bytes wanted, whether a next sector can be read or not.
  pub round_last :
      (fuel n : ℕ) (fd : FileData)
      → ((round fuel n fd n).1 ≡ take n (drop (fd.position % 512) fd.buffer))
        × ((round fuel n fd n).0.position ≡ add32 fd.position n)
  unfolding round
  round_last fuel n fd =
      let fd1 = record fd { position = add32 fd.position n } in
      let chunk = take n (drop (fd.position % 512) fd.buffer) in
      ended n chunk fuel (omega arith) (next_if read_sector (512 - fd.position % 512 == n) v fd1)
        (add32 fd.position n) (next_if-position (512 - fd.position % 512 == n) fd1)
