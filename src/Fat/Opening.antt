-- ===== src/Fat/Opening.antt =====
-- The table of opened files (`FAT_OpenEntry` and `FAT_Close` of source/kernel/drivers/fat.c).
use waffle_os.Common.{
  ℕ, zero, suc, ◌+◌, ◌^◌, add32, mul32, ◌≡◌, ◌≢◌, refl, true, false, List, [], ◌∷◌, Option, some,
  arith, ap, ◌∙◌, get_elem?, set,
}
use waffle_os.Fat.{
  FileData, Volume, DirectoryEntry, file, read_into, cluster_to_lba, find_handle, setup,
  store_opened, open_entry,
}

-- All files before index `i` are open, and the one there is not.
abbrev pub IsFirstFree : ℕ → List FileData → Type 0
IsFirstFree i [] = ⊥
IsFirstFree zero (fd ∷ fds) = fd.opened ≡ false
IsFirstFree (suc i) (fd ∷ fds) = (fd.opened ≡ true) × IsFirstFree i fds

find_handle-some :
    (i j : ℕ) (fds : List FileData) → IsFirstFree j fds → find_handle i fds ≡ some (i + j)
unfolding find_handle
find_handle-some i j [] p = absurd p
find_handle-some i zero (fd ∷ fds) p = let same : i ≡ i + 0 = omega arith in rw p (ap some same)
find_handle-some i (suc j) (fd ∷ fds) (used, p) =
    let same : i + 1 + j ≡ i + suc j = omega arith in
    rw used (find_handle-some (i + 1) j fds p ∙ ap some same)

get_elem?-first :
    (j : ℕ) (fds : List FileData)
    → IsFirstFree j fds
    → (fd : FileData) × (get_elem? fds j ≡ some fd) × (fd.opened ≡ false)
get_elem?-first j [] p = absurd p
get_elem?-first zero (fd ∷ fds) p = (fd, refl, p)
get_elem?-first (suc j) (fd ∷ fds) (used, p) = get_elem?-first j fds p

get_elem?-set_self :
    (fds : List FileData) (j : ℕ) (fd old : FileData)
    → get_elem? fds j ≡ some old
    → get_elem? (set fds j fd) j ≡ some fd
get_elem?-set_self [] j fd old e = absurd (cc e)
get_elem?-set_self (x ∷ fds) zero fd old e = refl
get_elem?-set_self (x ∷ fds) (suc j) fd old e = get_elem?-set_self fds j fd old e

get_elem?-set_ne :
    (fds : List FileData) (j k : ℕ) (fd : FileData)
    → k ≢ j
    → get_elem? (set fds j fd) k ≡ get_elem? fds k
get_elem?-set_ne [] j k fd differs = refl
get_elem?-set_ne (x ∷ fds) zero zero fd differs = absurd (differs refl)
get_elem?-set_ne (x ∷ fds) zero (suc k) fd differs = refl
get_elem?-set_ne (x ∷ fds) (suc j) zero fd differs = refl
get_elem?-set_ne (x ∷ fds) (suc j) (suc k) fd differs =
    get_elem?-set_ne fds j k fd (λ same. differs (ap suc same))

-- A file that has just been opened.
pub record IsFresh (entry : DirectoryEntry) (sector : List ℕ) (j : ℕ) (fd : FileData) : Type 0 where
  pub opened : fd.opened ≡ true
  pub named : fd.handle ≡ file j
  pub at_start : fd.position ≡ 0
  pub sized : fd.size ≡ entry.file_size
  pub loaded : fd.buffer ≡ sector

abbrev pub first_cluster_of : DirectoryEntry → ℕ
first_cluster_of entry = add32 entry.first_cluster_low (mul32 entry.first_cluster_high (2 ^ 16))

module _ (read_sector : ℕ → Option (List ℕ)) (v : Volume) where
  open_entry-some :
      (entry : DirectoryEntry) (sector : List ℕ) (opened_files : List FileData) (j : ℕ)
      (old : FileData)
      → find_handle 0 opened_files ≡ some j
      → get_elem? opened_files j ≡ some old
      → read_sector (cluster_to_lba v (first_cluster_of entry)) ≡ some sector
      → open_entry read_sector v entry opened_files ≡ (
        some j,
        set opened_files j (record (setup j entry old) { buffer = sector; opened = true }),
      )
  unfolding setup store_opened open_entry
  open_entry-some entry sector opened_files j old found there read =
      rw (open_entry, found, there, read_into, read) refl

  -- Where the first handle that is free is `j` and the first sector of the file can be read,
  -- `FAT_OpenEntry` returns `j`, the file of that handle is open at its start with that sector in its
  -- buffer, and no other file has changed.
  pub open_entry-IsFresh :
      (entry : DirectoryEntry) (sector : List ℕ) (opened_files : List FileData) (j : ℕ)
      → IsFirstFree j opened_files
      → read_sector (cluster_to_lba v (first_cluster_of entry)) ≡ some sector
      → ((open_entry read_sector v entry opened_files).0 ≡ some j)
        × ((fd : FileData) × (get_elem? (open_entry read_sector v entry opened_files).1 j ≡ some fd)
            × IsFresh entry sector j fd)
        × ((k : ℕ)
            → k ≢ j
            → get_elem? (open_entry read_sector v entry opened_files).1 k
              ≡ get_elem? opened_files k)
  unfolding setup
  open_entry-IsFresh entry sector opened_files j free read =
      let (old, there, unused) = get_elem?-first j opened_files free in
      let fd = record (setup j entry old) { buffer = sector; opened = true } in
      let first : 0 + j ≡ j = omega arith in
      let whole =
        open_entry-some entry sector opened_files j old
          (find_handle-some 0 j opened_files free ∙ ap some first) there read in
      (
        ap (λ (r : Option ℕ × List FileData). r.0) whole,
        (
          fd,
          ap (λ (r : Option ℕ × List FileData). get_elem? r.1 j) whole
              ∙ get_elem?-set_self opened_files j fd old there,
          record { opened = refl; named = refl; at_start = refl; sized = refl; loaded = refl },
        ),
        λ k differs.
            ap (λ (r : Option ℕ × List FileData). get_elem? r.1 k) whole
            ∙ get_elem?-set_ne opened_files j k fd differs,
      )
