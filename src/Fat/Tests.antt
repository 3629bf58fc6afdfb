-- ===== src/Fat/Tests.antt =====
-- A small volume.
use waffle_os.Common.{
  ℕ, zero, suc, ◌<◌, ◌^◌, ◌≡◌, refl, true, false, none, List, [], ◌∷◌, Option, some, replicate,
  ◌++◌, arith, if◌then◌else◌, ◌==◌, codes, map, drop, length,
}
use waffle_os.Common.First.{FirstOf}
use waffle_os.Fat.{FileData, DirectoryEntry, Volume, root, file, fat_read}
use waffle_os.Fat.Entries.{packed}
use waffle_os.Fat.Reading.{Reads}
use waffle_os.Fat.Chains.{sectors_of, IsVolume}
use waffle_os.Fat.Files.{fat_read-Linked}
use waffle_os.Fat.Directory.{find_file}
use waffle_os.Fat.Slots.{Slot, IsSlot, slots_bytes, short_name, same_text}
use waffle_os.Fat.Sectors.{AllSlots, AtSlots, entries_of}
use waffle_os.Fat.Finding.{find_file-FirstOf}

-- Cluster 2 is followed by 3, which is the last.
abbrev entry : ℕ → ℕ
entry c = if c == 2 then 3 else 0xFFF

-- Every byte of a sector is its number.
abbrev disk : ℕ → Option (List ℕ)
disk lba = some (replicate 512 lba)

abbrev volume : Volume
volume = record { fat = packed entry; data_section_lba = 33; sectors_per_cluster = 2 }

abbrev half_read : FileData
half_read = record {
  buffer = replicate 512 33;
  handle = file 0;
  is_directory = false;
  position = 500;
  size = 1900;
  opened = true;
  first_cluster = 2;
  current_cluster = 2;
  current_sector_in_cluster = 0;
}

readable : IsVolume disk (λ lba. replicate 512 lba) entry volume
readable = record {
  table = refl;
  entries = λ i. small i;
  some_sectors = omega arith;
  few_sectors = omega arith;
  low_data = omega arith;
  readable = λ lba. refl;
  whole = λ lba. refl;
}
  where
    small : (i : ℕ) → entry i < 2 ^ 12
    small i = ground arith

-- From the first sector of cluster 2 over the second one into cluster 3.
fat_read-Linked_example :
    Reads disk volume half_read
      (map (λ lba. replicate 512 lba) (drop 0 (sectors_of volume (2 ∷ 3 ∷ []))))
      600
      (fat_read disk 600 volume half_read)
fat_read-Linked_example =
    fat_read-Linked disk (λ lba. replicate 512 lba) entry volume readable 600 0 2 0 (3 ∷ [])
      half_read ((omega arith, omega arith), refl, (omega arith, omega arith)) refl refl refl
      (omega arith) refl refl (omega arith) (omega arith) (omega arith)

linked_sectors : sectors_of volume (2 ∷ 3 ∷ []) ≡ 33 ∷ 34 ∷ 35 ∷ 36 ∷ []
linked_sectors = refl

-- A directory of two sectors, with seventeen entries before one that is searched for.
abbrev slot : List ℕ → ℕ → Slot
slot name size = record {
  entry = record {
    name = name;
    attributes = 32;
    first_cluster_high = 0;
    first_cluster_low = 5;
    file_size = size;
  };
  access = λ i. i;
  writing = λ i. i;
}

abbrev first_sector : List Slot
first_sector = replicate 16 (slot (codes "KERNEL  BIN") 70000)

abbrev second_sector : List Slot
second_sector =
    slot (codes "README  MD ") 5
    ∷ slot (codes "NOTES   TXT") 90000
    ∷ replicate 14 (slot (replicate 11 0) 0)

abbrev root_disk : ℕ → Option (List ℕ)
root_disk lba = if lba == 20 then some (slots_bytes second_sector) else none

abbrev directory : FileData
directory = record {
  buffer = slots_bytes first_sector;
  handle = root;
  is_directory = true;
  position = 0;
  size = 1024;
  opened = true;
  first_cluster = 19;
  current_cluster = 19;
  current_sector_in_cluster = 0;
}

find_notes :
    (find_file root_disk volume 33 (codes "notes.txt") directory).0
    ≡ some (some (slot (codes "NOTES   TXT") 90000).entry)
unfolding find_file
find_notes = refl

find_nothing : (find_file root_disk volume 33 (codes "notes.md") directory).0 ≡ some none
unfolding find_file
find_nothing = refl

some_slot : (name : List ℕ) (size : ℕ) → length name ≡ 11 → size < 2 ^ 32 → IsSlot (slot name size)
some_slot name size eleven word = record {
  eleven = eleven;
  high = omega arith;
  low = omega arith;
  word = word;
}

replicate-AllSlots : (n : ℕ) (t : Slot) → IsSlot t → AllSlots (replicate n t)
replicate-AllSlots zero t h = tt
replicate-AllSlots (suc n) t h = (h, replicate-AllSlots n t h)

at_start : AtSlots root_disk directory first_sector (second_sector ∷ [])
at_start = record {
  is_root = refl;
  directory = refl;
  small = omega arith;
  some_size = omega arith;
  all =
      replicate-AllSlots 16 (slot (codes "KERNEL  BIN") 70000)
        (some_slot (codes "KERNEL  BIN") 70000 refl (omega arith));
  to_sector_end = refl;
  to_end = refl;
  holds = refl;
  follow = (
    omega arith,
    refl,
    (
      refl,
      (
        some_slot (codes "README  MD ") 5 refl (omega arith),
        (
          some_slot (codes "NOTES   TXT") 90000 refl (omega arith),
          replicate-AllSlots 14 (slot (replicate 11 0) 0)
              (some_slot (replicate 11 0) 0 refl (omega arith)),
        ),
      ),
    ),
    tt,
  );
}

find_file-FirstOf_example :
    (found : Option DirectoryEntry) × ((find_file root_disk volume 33
        (codes "notes" ++ b'.' ∷ codes "txt")
        directory).0
      ≡ some found)
    × FirstOf
        (λ e. same_text (short_name (codes "notes") (codes "txt")) e.name)
        (entries_of (first_sector ∷ second_sector ∷ []))
        found
find_file-FirstOf_example =
    find_file-FirstOf root_disk volume (codes "notes") (codes "txt") 33 first_sector
      (second_sector ∷ []) directory (ground arith) (omega arith) (omega arith) at_start
      (omega arith)
