-- ===== src/Fat/Sectors.antt =====
-- The root directory through its sectors: what `FAT_FindFile` of source/kernel/drivers/fat.c finds.
use waffle_os.Common.{
  ℕ, ◌+◌, ◌-◌, ◌*◌, ◌%◌, ◌^◌, ◌<◌, ◌≡◌, refl, sym, ap, subst, ◌∙◌, Bool, true, false, List, [], ◌∷◌,
  ◌++◌, Option, some, none, ◌==◌, length, drop, add32, arith,
}
use waffle_os.Fat.{FileData, Volume, DirectoryEntry, root, next_if, next_sector, read_into}
use waffle_os.Fat.Directory.{read_entry, Listing, at_end, next_entry}
use waffle_os.Fat.Slots.{Slot, IsSlot, slots_bytes}
use waffle_os.Fat.Searching.{read_entry-none, read_entry-some, drop_slot, drop_twice}

abbrev pub AllSlots : List Slot → Type 0
AllSlots [] = Unit
AllSlots (t ∷ ts) = IsSlot t × AllSlots ts

abbrev pub entries_in : List Slot → List DirectoryEntry
entries_in [] = []
entries_in (t ∷ ts) = t.entry ∷ entries_in ts

-- All entries of the sectors.
abbrev pub entries_of : List (List Slot) → List DirectoryEntry
entries_of [] = []
entries_of (slots ∷ rest) = entries_in slots ++ entries_of rest

-- The sectors that follow this one hold these entries, sixteen in each.
abbrev pub Follow : (ℕ → Option (List ℕ)) → ℕ → List (List Slot) → Type 0
Follow read_sector lba [] = Unit
Follow read_sector lba (slots ∷ rest) =
    (lba + 1 < 2 ^ 32)
    × (read_sector (lba + 1) ≡ some (slots_bytes slots))
    × ((length slots ≡ 16) × AllSlots slots)
    × Follow read_sector (lba + 1) rest

-- The root directory, which stands at the entries `here` of the sector in its buffer.
pub record AtSlots (read_sector : ℕ → Option (List ℕ)) (fd : FileData) (slots : List Slot)
    (rest : List (List Slot)) : Type 0 where
  pub is_root : fd.handle ≡ root
  pub directory : fd.is_directory ≡ true
  pub small : fd.size < 2 ^ 32
  pub some_size : 0 < fd.size
  pub all : AllSlots slots
  pub to_sector_end : fd.position % 512 + 32 * length slots ≡ 512
  pub to_end : fd.position + 32 * length slots + 512 * length rest ≡ fd.size
  pub holds : drop (fd.position % 512) fd.buffer ≡ slots_bytes slots
  pub follow : Follow read_sector fd.current_cluster rest

module _ (read_sector : ℕ → Option (List ℕ)) (v : Volume) where
  -- Reading the next sector keeps what the end of the directory is told by.
  read_into-kept :
      (lba : ℕ) (fd : FileData)
      → let fd' = (read_into read_sector lba fd).1 in
        (fd'.is_directory ≡ fd.is_directory) × (fd'.size ≡ fd.size) × (fd'.position ≡ fd.position)
  unfolding read_into
  read_into-kept lba fd = kept (read_sector lba)
    where
      kept :
          (r : Option (List ℕ))
          → let fd' =
              (elim r as (λ _. Bool × FileData) [
                | some sector ↦ (true, record fd { buffer = sector })
                | none ↦ (false, fd)
              ]).1 in
            (fd'.is_directory ≡ fd.is_directory)
            × (fd'.size ≡ fd.size)
            × (fd'.position ≡ fd.position)
      kept none = (refl, refl, refl)
      kept (some sector) = (refl, refl, refl)

  after_entry : FileData → FileData
  after_entry fd =
      (next_if read_sector (512 - fd.position % 512 == 32) v
        (record fd { position = fd.position + 32 })).1

  within_sector :
      (fd : FileData)
      → fd.position % 512 + 32 < 512
      → after_entry fd ≡ record fd { position = fd.position + 32 }
  unfolding after_entry next_if
  within_sector fd more =
      let stays : (512 - fd.position % 512 == 32) ≡ false = ground arith in
      ap (λ b. (next_if read_sector b v (record fd { position = fd.position + 32 })).1) stays

  at_sector_end :
      (fd : FileData)
      → fd.handle ≡ root
      → fd.position % 512 + 32 ≡ 512
      → after_entry fd
        ≡ (read_into read_sector (add32 fd.current_cluster 1) (record fd {
          position = fd.position + 32;
          current_cluster = add32 fd.current_cluster 1;
        })).1
  unfolding after_entry next_if next_sector
  at_sector_end fd is_root ends =
      let moves : (512 - fd.position % 512 == 32) ≡ true = ground arith in
      let fd' : FileData = record fd { position = fd.position + 32 } in
      ap (λ b. (next_if read_sector b v fd').1) moves
      ∙ ap (λ h. (next_sector read_sector v h fd').1) is_root

  next_read :
      (fd : FileData) (bytes : List ℕ)
      → fd.handle ≡ root
      → fd.position % 512 + 32 ≡ 512
      → fd.current_cluster + 1 < 2 ^ 32
      → read_sector (fd.current_cluster + 1) ≡ some bytes
      → after_entry fd ≡ record fd {
        position = fd.position + 32;
        current_cluster = fd.current_cluster + 1;
        buffer = bytes;
      }
  unfolding read_into
  next_read fd bytes is_root ends small serves =
      let next : add32 fd.current_cluster 1 ≡ fd.current_cluster + 1 = omega arith in
      let moved : ℕ → FileData =
        λ k. record fd { position = fd.position + 32; current_cluster = k } in
      at_sector_end fd is_root ends
      ∙ ap (λ k. (read_into read_sector k (moved k)).1) next
      ∙ rw (read_into, serves) refl

  read_last :
      (t : Slot) (fd : FileData)
      → AtSlots read_sector fd (t ∷ []) []
      → read_entry read_sector v (after_entry fd) ≡ (none, after_entry fd)
  read_last t fd a =
      let to_sector_end = a.to_sector_end in
      let to_end = a.to_end in
      let some_size = a.some_size in
      let small = a.small in
      let directory = a.directory in
      let moved : FileData = record fd {
        position = fd.position + 32;
        current_cluster = add32 fd.current_cluster 1;
      } in
      let (same_kind, same_size, same_position) =
        read_into-kept (add32 fd.current_cluster 1) moved in
      subst (λ f. read_entry read_sector v f ≡ (none, f))
        (sym (at_sector_end fd a.is_root (omega arith)))
        (read_entry-none read_sector v (read_into read_sector (add32 fd.current_cluster 1) moved).1
          (same_kind ∙ directory) (omega arith) (omega arith) (omega arith))

  read_first :
      (t : Slot) (slots : List Slot) (rest : List (List Slot)) (fd : FileData)
      → AtSlots read_sector fd (t ∷ slots) rest
      → read_entry read_sector v fd ≡ (some t.entry, after_entry fd)
  unfolding after_entry
  read_first t slots rest fd a =
      let to_sector_end = a.to_sector_end in
      let to_end = a.to_end in
      read_entry-some read_sector v t (slots_bytes slots) fd a.all.0 a.directory (omega arith)
        a.small (omega arith) a.holds

  pub AtSlots-Listing :
      (rest : List (List Slot)) (slots : List Slot) (fd : FileData) (t : Slot)
      → AtSlots read_sector fd (t ∷ slots) rest
      → Listing read_sector v fd (t.entry ∷ entries_in slots ++ entries_of rest)
  AtSlots-Listing rest (t2 ∷ slots) fd t a =
      let to_sector_end = a.to_sector_end in
      let to_end = a.to_end in
      let fd' : FileData = record fd { position = fd.position + 32 } in
      let place : (fd.position + 32) % 512 ≡ fd.position % 512 + 32 = omega arith in
      next_entry
        (read_first t (t2 ∷ slots) rest fd a
          ∙ ap (λ f. (some t.entry, f)) (within_sector fd (omega arith)))
        (AtSlots-Listing rest slots fd' t2 (record {
          is_root = a.is_root;
          directory = a.directory;
          small = a.small;
          some_size = a.some_size;
          all = a.all.1;
          to_sector_end = omega arith;
          to_end = omega arith;
          holds =
              ap (λ k. drop k fd.buffer) place
              ∙ sym (drop_twice (fd.position % 512) 32 fd.buffer)
              ∙ ap (drop 32) a.holds
              ∙ drop_slot t (slots_bytes (t2 ∷ slots)) a.all.0;
          follow = a.follow;
        }))
  AtSlots-Listing [] [] fd t a = next_entry (read_first t [] [] fd a) (at_end (read_last t fd a))
  AtSlots-Listing ([] ∷ rest) [] fd t a = let sixteen = a.follow.2.0 in absurd (omega arith)
  AtSlots-Listing ((t2 ∷ slots) ∷ rest) [] fd t a =
      let (word, serves, (sixteen, valid), others) = a.follow in
      let to_sector_end = a.to_sector_end in
      let to_end = a.to_end in
      let bytes : List ℕ = slots_bytes (t2 ∷ slots) in
      let fd' : FileData = record fd {
        position = fd.position + 32;
        current_cluster = fd.current_cluster + 1;
        buffer = bytes;
      } in
      let place : (fd.position + 32) % 512 ≡ 0 = omega arith in
      next_entry
        (read_first t [] ((t2 ∷ slots) ∷ rest) fd a
          ∙ ap (λ f. (some t.entry, f)) (next_read fd bytes a.is_root (omega arith) word serves))
        (AtSlots-Listing rest slots fd' t2 (record {
          is_root = a.is_root;
          directory = a.directory;
          small = a.small;
          some_size = a.some_size;
          all = valid;
          to_sector_end = omega arith;
          to_end = omega arith;
          holds = ap (λ k. drop k bytes) place;
          follow = others;
        }))
