-- ===== src/Fat/Directory.antt =====
-- The search of a directory: `FAT_ReadEntry` and `FAT_FindFile` of source/kernel/drivers/fat.c.
use waffle_os.Common.{
  ℕ, zero, suc, ◌+◌, ◌*◌, ◌^◌, ◌<◌, ◌≡◌, ◌∙◌, refl, ap, Bool, true, false, ◌&&◌, List, [], ◌∷◌,
  Option, none, some, ◌==◌, if◌then◌else◌, length, take, drop, get_or, arith, Bool-cases, inl, inr,
}
use waffle_os.Common.First.{FirstOf, nowhere, here, later}
use waffle_os.Fat.{Volume, FileData, DirectoryEntry, fat_read, fat_name}

-- `sizeof(FAT_DirectoryEntry)`
abbrev pub entry_size : ℕ
entry_size = 32

-- The packed fields; the name is Name with Extension behind it.
unfoldable pub entry_of : List ℕ → DirectoryEntry
entry_of bytes =
    let byte : ℕ → ℕ = λ i. get_or bytes i 0 in
    let word : ℕ → ℕ = λ i. byte i + byte (i + 1) * 2 ^ 8 in
    record {
      name = take 11 bytes;
      attributes = byte 11;
      first_cluster_high = word 20;
      first_cluster_low = word 26;
      file_size = word 28 + word 30 * 2 ^ 16;
    }

-- `memcmp(fatName, entry.Name, n) == 0`
unfoldable pub same_chars : ℕ → List ℕ → List ℕ → Bool
same_chars zero a b = true
same_chars (suc n) a b = get_or a 0 0 == get_or b 0 0 && same_chars n (drop 1 a) (drop 1 b)

module _ (read_sector : ℕ → Option (List ℕ)) (v : Volume) where
  -- The entry, if all its bytes are read.
  unfoldable pub read_entry : FileData → Option DirectoryEntry × FileData
  unfolding fat_read entry_of
  read_entry fd =
      let (fd', bytes) = fat_read read_sector entry_size v fd in
      (if length bytes == entry_size then some (entry_of bytes) else none, fd')

  -- `while (FAT_ReadEntry(...))`, with fuel: the outer `none` is a loop that has not ended.
  unfoldable pub find_loop : ℕ → List ℕ → FileData → Option (Option DirectoryEntry) × FileData
  unfolding read_entry same_chars
  find_loop zero name fd = (none, fd)
  find_loop (suc fuel) name fd =
      let (read, fd') = read_entry fd in
      elim read [
        | none ↦ (some none, fd')
        | some entry ↦ elim (same_chars 11 name entry.name) [
          | true ↦ (some (some entry), fd')
          | false ↦ find_loop fuel name fd'
        ]
      ]

  unfoldable pub find_file : ℕ → List ℕ → FileData → Option (Option DirectoryEntry) × FileData
  unfolding find_loop fat_name
  find_file fuel name fd = find_loop fuel (fat_name name) fd

  -- The entries that the reads give one after another until one fails.
  pub data Listing : FileData → List DirectoryEntry → Type 0 where
    at_end : {fd fd' : FileData} → read_entry fd ≡ (none, fd') → Listing fd []
    next_entry :
        {fd fd' : FileData} {entry : DirectoryEntry} {entries : List DirectoryEntry}
        → read_entry fd ≡ (some entry, fd')
        → Listing fd' entries
        → Listing fd (entry ∷ entries)

  abbrev pub Found : List ℕ → List DirectoryEntry → Option (Option DirectoryEntry) → Type 0
  Found name entries result =
      (found : Option DirectoryEntry) × (result ≡ some found)
      × FirstOf (λ entry. same_chars 11 name entry.name) entries found

  abbrev found_by :
      ℕ → List ℕ → DirectoryEntry → FileData → Bool → Option (Option DirectoryEntry) × FileData
  found_by fuel name entry fd same = elim same [
    | true ↦ (some (some entry), fd)
    | false ↦ find_loop fuel name fd
  ]

  abbrev after_read :
      ℕ → List ℕ → Option DirectoryEntry × FileData → Option (Option DirectoryEntry) × FileData
  after_read fuel name (none, fd) = (some none, fd)
  after_read fuel name (some entry, fd) =
      found_by fuel name entry fd (same_chars 11 name entry.name)

  by_read :
      (fuel : ℕ) (name : List ℕ) (read : Option DirectoryEntry) (fd : FileData)
      → elim read as (λ _. Option (Option DirectoryEntry) × FileData) [
        | none ↦ (some none, fd)
        | some entry ↦ found_by fuel name entry fd (same_chars 11 name entry.name)
      ]
        ≡ after_read fuel name (read, fd)
  by_read fuel name none fd = refl
  by_read fuel name (some entry) fd = refl

  find_loop-step :
      (fuel : ℕ) (name : List ℕ) (fd : FileData) (read : Option DirectoryEntry × FileData)
      → read_entry fd ≡ read
      → find_loop (suc fuel) name fd ≡ after_read fuel name read
  unfolding find_loop
  find_loop-step fuel name fd read e =
      by_read fuel name (read_entry fd).0 (read_entry fd).1 ∙ ap (after_read fuel name) e

  find_loop-Found :
      (name : List ℕ) (fuel : ℕ) (entries : List DirectoryEntry) (fd : FileData)
      → Listing fd entries
      → length entries < fuel
      → Found name entries (find_loop fuel name fd).0
  find_loop-Found name zero entries fd l enough = absurd (omega arith)
  find_loop-Found name (suc fuel) [] fd (at_end {fd' = fd'} e) enough =
      (none, ap (λ r. r.0) (find_loop-step fuel name fd (none, fd') e), nowhere)
  find_loop-Found name (suc fuel) (entry ∷ entries) fd (next_entry {fd' = fd'} e l) enough =
      let step = ap (λ r. r.0) (find_loop-step fuel name fd (some entry, fd') e) in
      elim (Bool-cases (same_chars 11 name entry.name)) [
        | inl same ↦
            (some entry, step ∙ ap (λ b. (found_by fuel name entry fd' b).0) same, here same)
        | inr other ↦
            let (found, goes, first) = find_loop-Found name fuel entries fd' l (omega arith) in
            (
              found,
              step ∙ ap (λ b. (found_by fuel name entry fd' b).0) other ∙ goes,
              later other first,
            )
      ]

  -- The search of a directory ends, with one round more than the directory has entries, and finds the
  -- first entry that has the name, written as eleven characters, or none if no entry has it. The
  -- entries are those that FAT_Read gives one after another up to the first one that is not whole.
  pub find_file-Found :
      (name : List ℕ) (fuel : ℕ) (entries : List DirectoryEntry) (fd : FileData)
      → Listing fd entries
      → length entries < fuel
      → Found (fat_name name) entries (find_file fuel name fd).0
  unfolding find_file
  find_file-Found name fuel entries fd l enough =
      find_loop-Found (fat_name name) fuel entries fd l enough
