-- ===== src/Fat/Finding.antt =====
-- What `FAT_FindFile` of source/kernel/drivers/fat.c finds in the root directory.
use waffle_os.Common.{
  ℕ, zero, suc, ◌+◌, ◌≤◌, ◌<◌, ◌≡◌, refl, sym, ap, subst, ◌∙◌, List, [], ◌∷◌, ◌++◌, Option, some,
  length, arith, map, replicate, length-append, ◌-◌,
}
use waffle_os.Common.First.{FirstOf, nowhere, here, later}
use waffle_os.Fat.{FileData, Volume, DirectoryEntry}
use waffle_os.Fat.Names.{NoDot}
use waffle_os.Fat.Directory.{find_file, same_chars, find_file-Found}
use waffle_os.Fat.Slots.{
  Slot, capital, padded, short_name, fat_name-short_name, same_text, same_chars-same_text,
}
use waffle_os.Fat.Sectors.{AllSlots, entries_in, entries_of, Follow, AtSlots, AtSlots-Listing}

abbrev AllNamed : List DirectoryEntry → Type 0
AllNamed [] = Unit
AllNamed (e ∷ es) = (length e.name ≡ 11) × AllNamed es

AllNamed-entries_in :
    (ts : List Slot) (es : List DirectoryEntry)
    → AllSlots ts
    → AllNamed es
    → AllNamed (entries_in ts ++ es)
AllNamed-entries_in [] es h k = k
AllNamed-entries_in (t ∷ ts) es (h, hs) k = (h.eleven, AllNamed-entries_in ts es hs k)

AllNamed-entries_of :
    (read_sector : ℕ → Option (List ℕ)) (lba : ℕ) (rest : List (List Slot))
    → Follow read_sector lba rest
    → AllNamed (entries_of rest)
AllNamed-entries_of read_sector lba [] f = tt
AllNamed-entries_of read_sector lba (slots ∷ rest) (word, serves, (sixteen, all), others) =
    AllNamed-entries_in slots (entries_of rest) all
      (AllNamed-entries_of read_sector (lba + 1) rest others)

length-capitals : (chars : List ℕ) → length (map capital chars) ≡ length chars
length-capitals [] = refl
length-capitals (c ∷ chars) = ap suc (length-capitals chars)

length-replicate : (n c : ℕ) → length (replicate n c) ≡ n
length-replicate zero c = refl
length-replicate (suc n) c = ap suc (length-replicate n c)

length-padded : (n : ℕ) (chars : List ℕ) → length chars ≤ n → length (padded n chars) ≡ n
length-padded n chars short =
    let both = length-append (map capital chars) (replicate (n - length chars) 32) in
    let front = length-capitals chars in
    let back = length-replicate (n - length chars) 32 in omega arith

length-short_name :
    (base ext : List ℕ) → length base ≤ 8 → length ext ≤ 3 → length (short_name base ext) ≡ 11
length-short_name base ext short short' =
    let both = length-append (padded 8 base) (padded 3 ext) in
    let front = length-padded 8 base short in let back = length-padded 3 ext short' in omega arith

FirstOf-same_text :
    (name : List ℕ) (es : List DirectoryEntry) (found : Option DirectoryEntry)
    → length name ≡ 11
    → AllNamed es
    → FirstOf (λ e. same_chars 11 name e.name) es found
    → FirstOf (λ e. same_text name e.name) es found
FirstOf-same_text name [] found eleven k nowhere = nowhere
FirstOf-same_text name (e ∷ es) found eleven (k, ks) (here p) =
    here (sym (same_chars-same_text 11 name e.name eleven k) ∙ p)
FirstOf-same_text name (e ∷ es) found eleven (k, ks) (later p f) =
    later (sym (same_chars-same_text 11 name e.name eleven k) ∙ p)
      (FirstOf-same_text name es found eleven ks f)

-- The root directory stands at an entry, with its sector in the buffer. That sector from there on, and
-- the ones behind it up to the end of the directory, hold entries, sixteen in a whole sector, and can
-- be read. Then the search for the file base.ext, of at most eight characters without a dot and at
-- most three, ends with one round more than there are entries, and finds, with all its fields, the
-- first entry whose name is base and ext in capitals, each filled up with spaces, or none if no entry
-- has it.
pub find_file-FirstOf :
    (read_sector : ℕ → Option (List ℕ)) (v : Volume) (base ext : List ℕ) (fuel : ℕ)
    (slots : List Slot) (rest : List (List Slot)) (fd : FileData)
    → NoDot base
    → length base ≤ 8
    → length ext ≤ 3
    → AtSlots read_sector fd slots rest
    → length (entries_of (slots ∷ rest)) < fuel
    → (found : Option DirectoryEntry) × ((find_file read_sector v fuel (base ++ b'.' ∷ ext) fd).0
        ≡ some found)
      × FirstOf (λ e. same_text (short_name base ext) e.name) (entries_of (slots ∷ rest)) found
find_file-FirstOf read_sector v base ext fuel [] rest fd no_dot short short' a enough =
    let to_sector_end = a.to_sector_end in absurd (omega arith)
find_file-FirstOf read_sector v base ext fuel (t ∷ slots) rest fd no_dot short short' a enough =
    let entries : List DirectoryEntry = entries_of ((t ∷ slots) ∷ rest) in
    let name = fat_name-short_name base ext no_dot short short' in
    let (found, ends, first) =
      find_file-Found read_sector v (base ++ b'.' ∷ ext) fuel entries fd
        (AtSlots-Listing read_sector v rest slots fd t a) enough in
    let named =
      AllNamed-entries_in (t ∷ slots) (entries_of rest) a.all
        (AllNamed-entries_of read_sector fd.current_cluster rest a.follow) in
    (
      found,
      ends,
      FirstOf-same_text (short_name base ext) entries found
          (length-short_name base ext short short') named
          (subst (λ n. FirstOf (λ e. same_chars 11 n e.name) entries found) name first),
    )
