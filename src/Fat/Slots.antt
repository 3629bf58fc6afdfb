-- ===== src/Fat/Slots.antt =====
-- The bytes of a directory, as the structure `FAT_DirectoryEntry` of source/kernel/drivers/fat.h lays
-- them out, and the names in it, told without the code that reads them.
use waffle_os.Common.{
  ℕ, zero, suc, ◌+◌, ◌-◌, ◌/◌, ◌%◌, ◌^◌, ◌≤◌, ◌<◌, ◌≡◌, refl, sym, ap, ◌∙◌, Bool, true, false, ◌&&◌,
  List, [], ◌∷◌, ◌++◌, map, leb, ◌==◌, if◌then◌else◌, length, length-append, take, get_or,
  replicate, arith,
}
use waffle_os.Strings.{toupper, islower}
use waffle_os.Fat.{DirectoryEntry, spaced, fat_name}
use waffle_os.Fat.Names.{NoDot, take_front, fat_name-append}
use waffle_os.Fat.Directory.{entry_of, same_chars}

-- An entry with the other bytes of its place: eight from the reserved one to the day of the last
-- access, and four of the last writing.
pub record Slot : Type 0 where
  pub entry : DirectoryEntry
  pub access : ℕ → ℕ
  pub writing : ℕ → ℕ

pub record IsSlot (t : Slot) : Type 0 where
  pub eleven : length t.entry.name ≡ 11
  pub high : t.entry.first_cluster_high < 2 ^ 16
  pub low : t.entry.first_cluster_low < 2 ^ 16
  pub word : t.entry.file_size < 2 ^ 32

abbrev pub after_name : Slot → List ℕ
after_name t =
    t.entry.attributes
    ∷ t.access 0
    ∷ t.access 1
    ∷ t.access 2
    ∷ t.access 3
    ∷ t.access 4
    ∷ t.access 5
    ∷ t.access 6
    ∷ t.access 7
    ∷ t.entry.first_cluster_high % 2 ^ 8
    ∷ t.entry.first_cluster_high / 2 ^ 8
    ∷ t.writing 0
    ∷ t.writing 1
    ∷ t.writing 2
    ∷ t.writing 3
    ∷ t.entry.first_cluster_low % 2 ^ 8
    ∷ t.entry.first_cluster_low / 2 ^ 8
    ∷ t.entry.file_size % 2 ^ 8
    ∷ t.entry.file_size / 2 ^ 8 % 2 ^ 8
    ∷ t.entry.file_size / 2 ^ 16 % 2 ^ 8
    ∷ t.entry.file_size / 2 ^ 24
    ∷ []

-- The name, and what is behind it, the lowest byte of a number first.
abbrev pub slot_bytes : Slot → List ℕ
slot_bytes t = t.entry.name ++ after_name t

abbrev pub slots_bytes : List Slot → List ℕ
slots_bytes [] = []
slots_bytes (t ∷ ts) = slot_bytes t ++ slots_bytes ts

pub length-slot_bytes : (t : Slot) → IsSlot t → length (slot_bytes t) ≡ 32
length-slot_bytes t h =
    let whole = length-append t.entry.name (after_name t) in let eleven = h.eleven in omega arith

get_or_behind :
    (xs ys : List ℕ) (n i : ℕ) → length xs ≡ n → get_or (xs ++ ys) (n + i) 0 ≡ get_or ys i 0
get_or_behind [] ys n i e = let same : n + i ≡ i = omega arith in ap (λ k. get_or ys k 0) same
get_or_behind (x ∷ xs) ys zero i e = absurd (omega arith)
get_or_behind (x ∷ xs) ys (suc n) i e =
    let same : suc n + i ≡ suc (n + i) = omega arith in
    ap (λ k. get_or (x ∷ xs ++ ys) k 0) same ∙ get_or_behind xs ys n i (omega arith)

same_fields :
    (e f : DirectoryEntry)
    → e.name ≡ f.name
    → e.attributes ≡ f.attributes
    → e.first_cluster_high ≡ f.first_cluster_high
    → e.first_cluster_low ≡ f.first_cluster_low
    → e.file_size ≡ f.file_size
    → e ≡ f
same_fields e f p q r s t =
    ap (λ n. record e { name = n }) p
    ∙ ap (λ n. record e { name = f.name; attributes = n }) q
    ∙ ap
        (λ n. record f {
          first_cluster_high = n;
          first_cluster_low = e.first_cluster_low;
          file_size = e.file_size;
        })
        r
    ∙ ap (λ n. record f { first_cluster_low = n; file_size = e.file_size }) s
    ∙ ap (λ n. record f { file_size = n }) t

pub entry_of-slot_bytes : (t : Slot) → IsSlot t → entry_of (slot_bytes t) ≡ t.entry
unfolding entry_of
entry_of-slot_bytes t h =
    let at : (i : ℕ) → get_or (slot_bytes t) (11 + i) 0 ≡ get_or (after_name t) i 0 =
      λ i. get_or_behind t.entry.name (after_name t) 11 i h.eleven in
    let b0 = at 0 in
    let h0 = at 9 in
    let h1 = at 10 in
    let l0 = at 15 in
    let l1 = at 16 in
    let s0 = at 17 in
    let s1 = at 18 in
    let s2 = at 19 in
    let s3 = at 20 in
    let named : take 11 (slot_bytes t) ≡ t.entry.name =
      ap (λ n. take n (slot_bytes t)) (sym h.eleven) ∙ take_front t.entry.name (after_name t) in
    same_fields (entry_of (slot_bytes t)) t.entry named b0 (omega arith) (omega arith) (omega arith)

-- A small letter becomes its capital.
abbrev pub capital : ℕ → ℕ
capital c = if leb 97 c && leb c 122 then c - 32 else c

-- Filled up with spaces.
abbrev pub padded : ℕ → List ℕ → List ℕ
padded n chars = map capital chars ++ replicate (n - length chars) 32

-- The name in a directory of the file base.ext.
abbrev pub short_name : List ℕ → List ℕ → List ℕ
short_name base ext = padded 8 base ++ padded 3 ext

toupper-capital : (c : ℕ) → toupper c ≡ capital c
unfolding toupper islower
toupper-capital c = ground arith

spaces : (n : ℕ) → spaced n [] ≡ replicate n 32
spaces zero = refl
spaces (suc n) = ap (λ r. 32 ∷ r) (spaces n)

spaced-padded :
    (n : ℕ) (chars : List ℕ) → length chars ≤ n → spaced n (map toupper chars) ≡ padded n chars
spaced-padded n [] h = let all : n ≡ n - 0 = omega arith in spaces n ∙ ap (λ k. replicate k 32) all
spaced-padded zero (c ∷ chars) h = absurd (omega arith)
spaced-padded (suc n) (c ∷ chars) h =
    let left : n - length chars ≡ suc n - suc (length chars) = omega arith in
    ap (λ d. d ∷ spaced n (map toupper chars)) (toupper-capital c)
    ∙ ap (λ r. capital c ∷ r) (spaced-padded n chars (omega arith))
    ∙ ap (λ k. capital c ∷ (map capital chars ++ replicate k 32)) left

pub fat_name-short_name :
    (base ext : List ℕ)
    → NoDot base
    → length base ≤ 8
    → length ext ≤ 3
    → fat_name (base ++ b'.' ∷ ext) ≡ short_name base ext
fat_name-short_name base ext no_dot short short' =
    fat_name-append base ext no_dot short short'
    ∙ ap (λ b. b ++ spaced 3 (map toupper ext)) (spaced-padded 8 base short)
    ∙ ap (λ e. padded 8 base ++ e) (spaced-padded 3 ext short')

-- Whether two texts are the same.
abbrev pub same_text : List ℕ → List ℕ → Bool
same_text [] [] = true
same_text [] (b ∷ rest') = false
same_text (a ∷ rest) [] = false
same_text (a ∷ rest) (b ∷ rest') = a == b && same_text rest rest'

pub same_chars-same_text :
    (n : ℕ) (a b : List ℕ) → length a ≡ n → length b ≡ n → same_chars n a b ≡ same_text a b
unfolding same_chars
same_chars-same_text zero [] [] p q = refl
same_chars-same_text zero [] (b ∷ rest') p q = absurd (omega arith)
same_chars-same_text zero (a ∷ rest) b p q = absurd (omega arith)
same_chars-same_text (suc n) [] b p q = absurd (omega arith)
same_chars-same_text (suc n) (a ∷ rest) [] p q = absurd (omega arith)
same_chars-same_text (suc n) (a ∷ rest) (b ∷ rest') p q =
    ap (λ r. a == b && r) (same_chars-same_text n rest rest' (omega arith) (omega arith))
