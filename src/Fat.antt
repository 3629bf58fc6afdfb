-- ===== src/Fat.antt =====
-- source/kernel/drivers/fat.c: cluster chains, reading and opening of files, and short names. The
-- sectors come from the drivers of the disk and of the floppy, which are parameters: `none` is a read
-- that fails, and it leaves the buffer as it was. What is printed is left out.
pub mod Entries
pub mod Rounds
pub mod Reading
pub mod Chains
pub mod Files
pub mod Names
pub mod Directory
pub mod Opening
pub mod Slots
pub mod Searching
pub mod Sectors
pub mod Finding
mod Tests
use waffle_os.Common.{
  ℕ, zero, suc, ◌+◌, ◌-◌, ◌*◌, ◌/◌, ◌%◌, ◌^◌, min, Bool, true, false, not, ◌&&◌, ◌||◌, List, [],
  ◌∷◌, ◌++◌, Option, none, some, ltb, leb, ◌==◌, if◌then◌else◌, take, drop, add32, sub32, mul32,
  map, length, set, get_elem?, ◌>>=◌,
}
use waffle_os.Strings.{toupper, strchr}

abbrev pub sector_size : ℕ
sector_size = 512

abbrev pub max_file_handles : ℕ
max_file_handles = 10

-- ROOT_DIRECTORY_HANDLE, or a place in the table of opened files.
pub data Handle : Type 0 where
  root : Handle
  file : ℕ → Handle

pub record FileData : Type 0 where
  pub buffer : List ℕ
  pub handle : Handle
  pub is_directory : Bool
  pub position : ℕ
  pub size : ℕ
  pub opened : Bool
  pub first_cluster : ℕ
  pub current_cluster : ℕ
  pub current_sector_in_cluster : ℕ

-- `g_Fat` by bytes, `g_DataSectionLba`, and what is read of the boot sector.
pub record Volume : Type 0 where
  pub fat : ℕ → ℕ
  pub data_section_lba : ℕ
  pub sectors_per_cluster : ℕ

unfoldable pub cluster_to_lba : Volume → ℕ → ℕ
cluster_to_lba v cluster = add32 v.data_section_lba (mul32 (sub32 cluster 2) v.sectors_per_cluster)

-- The `uint16_t` at the index.
unfoldable pub next_cluster : (ℕ → ℕ) → ℕ → ℕ
next_cluster fat current_cluster =
    let fat_index : ℕ = mul32 current_cluster 3 / 2 in
    let word : ℕ = fat fat_index + fat (fat_index + 1) * 2 ^ 8 in
    if current_cluster % 2 == 0 then word % 2 ^ 12 else word / 2 ^ 4

module _ (read_sector : ℕ → Option (List ℕ)) where
  -- A read into the buffer, and whether the loop goes on.
  unfoldable pub read_into : ℕ → FileData → Bool × FileData
  read_into lba fd = elim (read_sector lba) [
    | some sector ↦ (true, record fd { buffer = sector })
    | none ↦ (false, fd)
  ]

  -- The next cluster and sector, before the test for the end of the file.
  unfoldable pub next_place : Volume → FileData → FileData
  unfolding next_cluster
  next_place v fd =
      if leb v.sectors_per_cluster (add32 fd.current_sector_in_cluster 1)
      then record fd {
        current_sector_in_cluster = 0;
        current_cluster = next_cluster v.fat fd.current_cluster;
      }
      else record fd { current_sector_in_cluster = add32 fd.current_sector_in_cluster 1 }

  unfoldable pub read_place : Volume → FileData → Bool × FileData
  unfolding read_into cluster_to_lba
  read_place v fd =
      if leb 0xFF8 fd.current_cluster
      then (false, record fd { size = fd.position })
      else read_into (add32 (cluster_to_lba v fd.current_cluster) fd.current_sector_in_cluster) fd

  -- `if (leftInBuffer == take)`, by the handle.
  unfoldable pub next_sector : Volume → Handle → FileData → Bool × FileData
  unfolding next_place read_place read_into
  next_sector v root fd =
      read_into (add32 fd.current_cluster 1)
        (record fd { current_cluster = add32 fd.current_cluster 1 })
  next_sector v (file i) fd = read_place v (next_place v fd)

  unfoldable pub next_if : Bool → Volume → FileData → Bool × FileData
  unfolding next_sector
  next_if true v fd = next_sector v fd.handle fd
  next_if false v fd = (true, fd)

  -- The end of a round, with the loop from there on.
  unfoldable pub after_chunk :
      List ℕ → (FileData → FileData × List ℕ) → Bool × FileData → FileData × List ℕ
  after_chunk chunk loop (true, fd) = ((loop fd).0, chunk ++ (loop fd).1)
  after_chunk chunk loop (false, fd) = (fd, chunk)

  -- `while (byteCount > 0)`. Each round takes a byte at least, so as many rounds as bytes are enough.
  unfoldable pub read_loop : ℕ → ℕ → Volume → FileData → FileData × List ℕ
  unfolding next_if after_chunk
  read_loop zero byte_count v fd = (fd, [])
  read_loop (suc fuel) zero v fd = (fd, [])
  read_loop (suc fuel) (suc n) v fd =
      let offset : ℕ = fd.position % sector_size in
      let left_in_buffer : ℕ = sector_size - offset in
      let taken : ℕ = min (suc n) left_in_buffer in
      after_chunk (take taken (drop offset fd.buffer)) (read_loop fuel (suc n - taken) v)
        (next_if (left_in_buffer == taken) v (record fd { position = add32 fd.position taken }))

  -- The bytes at `dataOut`; their number is the result.
  unfoldable pub fat_read : ℕ → Volume → FileData → FileData × List ℕ
  unfolding read_loop
  fat_read byte_count v fd =
      let bounded : ℕ =
        if not fd.is_directory || not (fd.size == 0)
        then min byte_count (sub32 fd.size fd.position)
        else byte_count in
      read_loop bounded bounded v fd

pub record DirectoryEntry : Type 0 where
  pub name : List ℕ
  pub attributes : ℕ
  pub first_cluster_high : ℕ
  pub first_cluster_low : ℕ
  pub file_size : ℕ

-- The loop for an empty handle, from index `i` on.
unfoldable pub find_handle : ℕ → List FileData → Option ℕ
find_handle i [] = none
find_handle i (fd ∷ fds) = if not fd.opened then some i else find_handle (i + 1) fds

-- The file before its first sector has been read. FAT_ATTRIBUTE_DIRECTORY is the fifth bit.
unfoldable pub setup : ℕ → DirectoryEntry → FileData → FileData
setup handle entry fd =
    let cluster : ℕ = add32 entry.first_cluster_low (mul32 entry.first_cluster_high (2 ^ 16)) in
    record fd {
      handle = file handle;
      is_directory = entry.attributes / 2 ^ 4 % 2 == 1;
      position = 0;
      size = entry.file_size;
      first_cluster = cluster;
      current_cluster = cluster;
      current_sector_in_cluster = 0;
    }

unfoldable pub store_opened : ℕ → List FileData → Bool × FileData → Option ℕ × List FileData
store_opened handle opened_files (true, fd) =
    (some handle, set opened_files handle (record fd { opened = true }))
store_opened handle opened_files (false, fd) = (none, set opened_files handle fd)

-- The reads are those of the floppy or of the disk, by `is_floppy`. The result is the handle.
unfoldable pub open_entry :
    (ℕ → Option (List ℕ)) → Volume → DirectoryEntry → List FileData → Option ℕ × List FileData
unfolding find_handle setup store_opened read_into cluster_to_lba
open_entry read_sector v entry opened_files = elim (find_handle 0 opened_files) [
  | none ↦ (none, opened_files)
  | some handle ↦ elim (get_elem? opened_files handle) [
    | none ↦ (none, opened_files)
    | some fd ↦
        let fd' = setup handle entry fd in
        store_opened handle opened_files
          (read_into read_sector (cluster_to_lba v fd'.current_cluster) fd')
  ]
]

-- `FAT_Close` of the root directory and of a file.
unfoldable pub close_root : FileData → FileData
close_root fd = record fd { position = 0; current_cluster = fd.first_cluster }

unfoldable pub close_file : ℕ → List FileData → List FileData
close_file handle opened_files = elim (get_elem? opened_files handle) [
  | none ↦ opened_files
  | some fd ↦ set opened_files handle (record fd { opened = false })
]

-- `fatName` is filled with spaces first.
abbrev pub spaced : ℕ → List ℕ → List ℕ
spaced zero chars = []
spaced (suc n) [] = b' ' ∷ spaced n []
spaced (suc n) (c ∷ chars) = c ∷ spaced n chars

-- The place of the dot; where there is none it is 11, and a dot there is taken for none.
unfoldable pub extension_at : List ℕ → ℕ
unfolding strchr
extension_at name = elim (strchr name b'.') [ some rest ↦ length name - length rest | none ↦ 11 ]

-- The 11 characters that `FAT_FindFile` looks for.
unfoldable pub fat_name : List ℕ → List ℕ
unfolding extension_at toupper
fat_name name =
    let ext : ℕ = extension_at name in
    let extension : List ℕ = if ext == 11 then [] else take 3 (drop (ext + 1) name) in
    spaced 8 (map toupper (take 8 (take ext name))) ++ spaced 3 (map toupper extension)

pub data FatType : Type 0 where
  fat12 : FatType
  fat16 : FatType
  fat32 : FatType

unfoldable pub get_fat_type : ℕ → FatType
get_fat_type total_clusters =
    if ltb total_clusters 4085 then fat12 else if ltb total_clusters 65525 then fat16 else fat32
