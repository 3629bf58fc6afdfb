-- ===== src/Fat/Searching.antt =====
-- The search of the root directory for a file, by the entries that its sectors hold
-- (`FAT_FindFile` of source/kernel/drivers/fat.c).
use waffle_os.Common.{
  ℕ, zero, suc, ◌+◌, ◌-◌, ◌%◌, ◌^◌, ◌≤◌, ◌<◌, ◌≡◌, refl, sym, ap, ◌∙◌, true, false, not, ◌||◌, List,
  [], ◌∷◌, ◌++◌, Option, some, none, ◌==◌, if◌then◌else◌, min, length, take, drop, add32, sub32,
  arith,
}
use waffle_os.Fat.{FileData, Volume, DirectoryEntry, fat_read, read_loop, next_if}
use waffle_os.Fat.Names.{take_front}
use waffle_os.Fat.Rounds.{read_loop-once, read_loop_none}
use waffle_os.Fat.Directory.{entry_size, entry_of, read_entry}
use waffle_os.Fat.Slots.{Slot, IsSlot, slot_bytes, length-slot_bytes, entry_of-slot_bytes}

take_slot : (t : Slot) (more : List ℕ) → IsSlot t → take 32 (slot_bytes t ++ more) ≡ slot_bytes t
take_slot t more h =
    ap (λ n. take n (slot_bytes t ++ more)) (sym (length-slot_bytes t h))
    ∙ take_front (slot_bytes t) more

drop_front : (xs ys : List ℕ) → drop (length xs) (xs ++ ys) ≡ ys
drop_front [] ys = refl
drop_front (x ∷ xs) ys = drop_front xs ys

pub drop_slot : (t : Slot) (more : List ℕ) → IsSlot t → drop 32 (slot_bytes t ++ more) ≡ more
drop_slot t more h =
    ap (λ n. drop n (slot_bytes t ++ more)) (sym (length-slot_bytes t h))
    ∙ drop_front (slot_bytes t) more

drop_nil : (n : ℕ) → drop {A = ℕ} n [] ≡ []
drop_nil zero = refl
drop_nil (suc n) = refl

pub drop_twice : (a b : ℕ) (xs : List ℕ) → drop b (drop a xs) ≡ drop (a + b) xs
drop_twice zero b xs = let same : b ≡ 0 + b = omega arith in ap (λ k. drop k xs) same
drop_twice (suc a) b [] = drop_nil b ∙ sym (drop_nil (suc a + b))
drop_twice (suc a) b (x ∷ xs) =
    let same : suc (a + b) ≡ suc a + b = omega arith in
    drop_twice a b xs ∙ ap (λ k. drop k (x ∷ xs)) same

module _ (read_sector : ℕ → Option (List ℕ)) (v : Volume) where
  -- The end of the directory.
  pub read_entry-none :
      (fd : FileData)
      → fd.is_directory ≡ true
      → 0 < fd.size
      → fd.position ≡ fd.size
      → fd.size < 2 ^ 32
      → read_entry read_sector v fd ≡ (none, fd)
  unfolding read_entry fat_read
  read_entry-none fd directory some_size passed small =
      let full : (fd.size == 0) ≡ false = ground arith in
      let left : min 32 (sub32 fd.size fd.position) ≡ 0 = omega arith in
      let made : FileData × List ℕ → Option DirectoryEntry × FileData =
        λ r. (if length r.1 == entry_size then some (entry_of r.1) else none, r.0) in
      ap
        (λ b. made (
          let k = if not b || not (fd.size == 0) then min 32 (sub32 fd.size fd.position) else 32 in
          read_loop read_sector k k v fd))
        directory
      ∙ ap
          (λ b. made (
            let k = if not b then min 32 (sub32 fd.size fd.position) else 32 in
            read_loop read_sector k k v fd))
          full
      ∙ ap (λ k. made (read_loop read_sector k k v fd)) left
      ∙ ap made (read_loop_none read_sector v 0 fd)

  -- An entry within the sector of the buffer, and what is left behind it.
  pub read_entry-some :
      (t : Slot) (more : List ℕ) (fd : FileData)
      → IsSlot t
      → fd.is_directory ≡ true
      → fd.position + 32 ≤ fd.size
      → fd.size < 2 ^ 32
      → fd.position % 512 + 32 ≤ 512
      → drop (fd.position % 512) fd.buffer ≡ slot_bytes t ++ more
      → read_entry read_sector v fd ≡ (
        some t.entry,
        (next_if read_sector
            (512 - fd.position % 512 == 32)
            v
            (record fd { position = fd.position + 32 })).1,
      )
  unfolding read_entry fat_read
  read_entry-some t more fd h directory fits small inside holds =
      let full : (fd.size == 0) ≡ false = ground arith in
      let bound : min 32 (sub32 fd.size fd.position) ≡ 32 = omega arith in
      let sum : add32 fd.position 32 ≡ fd.position + 32 = omega arith in
      let made : FileData × List ℕ → Option DirectoryEntry × FileData =
        λ r. (if length r.1 == entry_size then some (entry_of r.1) else none, r.0) in
      let after : ℕ → FileData = λ p.
        (next_if read_sector (512 - fd.position % 512 == 32) v (record fd { position = p })).1 in
      let whole : (length (slot_bytes t) == entry_size) ≡ true =
        let len = length-slot_bytes t h in ground (arith, len) in
      ap
        (λ b. made (
          let k = if not b || not (fd.size == 0) then min 32 (sub32 fd.size fd.position) else 32 in
          read_loop read_sector k k v fd))
        directory
      ∙ ap
          (λ b. made (
            let k = if not b then min 32 (sub32 fd.size fd.position) else 32 in
            read_loop read_sector k k v fd))
          full
      ∙ ap (λ k. made (read_loop read_sector k k v fd)) bound
      ∙ ap made (read_loop-once read_sector v 31 31 fd (omega arith))
      ∙ ap (λ p. made (after p, take 32 (drop (fd.position % 512) fd.buffer))) sum
      ∙ ap (λ b. made (after (fd.position + 32), take 32 b)) holds
      ∙ ap (λ b. made (after (fd.position + 32), b)) (take_slot t more h)
      ∙ ap (λ b. (if b then some (entry_of (slot_bytes t)) else none, after (fd.position + 32)))
          whole
      ∙ ap (λ e. (some e, after (fd.position + 32))) (entry_of-slot_bytes t h)
