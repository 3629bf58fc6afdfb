-- ===== src/Fat/Files.antt =====
-- Reading a file through the table of clusters (`FAT_Read` of source/kernel/drivers/fat.c).
use waffle_os.Common.{
  ℕ, zero, suc, ◌+◌, ◌-◌, ◌*◌, ◌%◌, ◌^◌, ◌≤◌, ◌<◌, ◌≡◌, refl, sym, ap, subst, ◌∙◌, false, List, [],
  ◌∷◌, ◌++◌, map, Option, min, length, drop, arith,
}
use waffle_os.Fat.{FileData, Volume, file, fat_read}
use waffle_os.Fat.Chains.{
  sectors_from, place_of, sectors_of, Linked, IsVolume, same_cluster, other_cluster,
}
use waffle_os.Fat.Reading.{Chain, Reads, fat_read-Reads}

drop_sectors :
    (s n t lba : ℕ) (more : List ℕ)
    → s + n ≡ t
    → drop s (sectors_from lba t ++ more) ≡ sectors_from (lba + s) n ++ more
drop_sectors zero n t lba more e =
    let same : t ≡ n = omega arith in
    let place : lba ≡ lba + 0 = omega arith in
    ap (λ k. sectors_from lba k ++ more) same ∙ ap (λ a. sectors_from a n ++ more) place
drop_sectors (suc s) n zero lba more e = absurd (omega arith)
drop_sectors (suc s) n (suc t) lba more e =
    let place : lba + 1 + s ≡ lba + suc s = omega arith in
    drop_sectors s n t (lba + 1) more (omega arith) ∙ ap (λ a. sectors_from a n ++ more) place

length-map : (f : ℕ → List ℕ) (xs : List ℕ) → length (map f xs) ≡ length xs
length-map f [] = refl
length-map f (x ∷ xs) = ap suc (length-map f xs)

Linked-head : (entry : ℕ → ℕ) (c : ℕ) (cs : List ℕ) → Linked entry c cs → (2 ≤ c) × (c < 0xFF8)
Linked-head entry c [] l = l
Linked-head entry c (next ∷ rest) l = l.0

module _ (read_sector : ℕ → Option (List ℕ)) (content : ℕ → List ℕ) (entry : ℕ → ℕ) (v : Volume)
    (h : IsVolume read_sector content entry v) where
  file-Chain :
      (cs : List ℕ) (n i c s : ℕ) (fd : FileData)
      → Linked entry c cs
      → fd.handle ≡ file i
      → fd.current_cluster ≡ c
      → fd.current_sector_in_cluster ≡ s
      → s + suc n ≡ v.sectors_per_cluster
      → fd.buffer ≡ content (place_of v c s)
      → Chain read_sector v fd
          (map content (sectors_from (place_of v c s) (suc n) ++ sectors_of v cs))
  file-Chain cs (suc n) i c s fd l by_file at_c at_s ends holds =
      let (low, high) = Linked-head entry c cs l in
      let place : place_of v c (s + 1) ≡ place_of v c s + 1 = omega arith in
      let fd' : FileData = record fd {
        current_sector_in_cluster = s + 1;
        buffer = content (place_of v c (s + 1));
      } in
      let rest = file-Chain cs n i c (s + 1) fd' l by_file at_c refl (omega arith) refl in
      (
        holds,
        h.whole (place_of v c s),
        fd',
        λ p.
            same_cluster read_sector content entry v h i c s (record fd { position = p }) by_file
              at_c at_s low high (omega arith),
        subst
            (λ a. Chain read_sector v fd' (map content (sectors_from a (suc n) ++ sectors_of v cs)))
            place rest,
      )
  file-Chain [] zero i c s fd l by_file at_c at_s ends holds = (holds, h.whole (place_of v c s))
  file-Chain (next ∷ cs) zero i c s fd l by_file at_c at_s ends holds =
      let (low, high) = Linked-head entry next cs l.2 in
      let some_sectors = h.some_sectors in
      let k : ℕ = v.sectors_per_cluster - 1 in
      let all : suc k ≡ v.sectors_per_cluster = omega arith in
      let fd' : FileData = record fd {
        current_cluster = next;
        current_sector_in_cluster = 0;
        buffer = content (place_of v next 0);
      } in
      let first : List ℕ = content (place_of v c s) in
      subst
        (λ t.
          Chain read_sector v fd
            (first ∷ map content (sectors_from (place_of v next 0) t ++ sectors_of v cs)))
        all
        (
          holds,
          h.whole (place_of v c s),
          fd',
          λ p.
              other_cluster read_sector content entry v h i c next s (record fd { position = p })
                by_file at_c at_s l.0.1 l.1 low high (omega arith),
          file-Chain cs k i next 0 fd' l.2 by_file refl refl (omega arith) refl,
        )

  -- A file stands at a sector of a cluster, with that sector in its buffer; its clusters are linked by
  -- the 12-bit entries of the table, every sector can be read and has 512 bytes. Where the clusters
  -- hold as many bytes as are wanted, and the file is no directory and its size is not passed,
  -- `FAT_Read` gives the bytes of the sectors of these clusters, cluster by cluster as they are linked
  -- and each with its sectors in order, from the position on, and moves the position behind them.
  pub fat_read-Linked :
      (n i c s : ℕ) (cs : List ℕ) (fd : FileData)
      → Linked entry c cs
      → fd.handle ≡ file i
      → fd.current_cluster ≡ c
      → fd.current_sector_in_cluster ≡ s
      → s < v.sectors_per_cluster
      → fd.buffer ≡ content (place_of v c s)
      → fd.is_directory ≡ false
      → fd.position ≤ fd.size
      → fd.size < 2 ^ 32
      → fd.position % 512 + min n (fd.size - fd.position)
        ≤ 512 * length (drop s (sectors_of v (c ∷ cs)))
      → Reads read_sector v fd
          (map content (drop s (sectors_of v (c ∷ cs))))
          (min n (fd.size - fd.position))
          (fat_read read_sector n v fd)
  fat_read-Linked n i c s cs fd l by_file at_c at_s inside holds plain_file before small fits =
      let k : ℕ = v.sectors_per_cluster - s - 1 in
      let place : place_of v c 0 + s ≡ place_of v c s = omega arith in
      let rest : List ℕ = sectors_from (place_of v c s + 1) k ++ sectors_of v cs in
      let dropped : drop s (sectors_of v (c ∷ cs)) ≡ place_of v c s ∷ rest =
        drop_sectors s (suc k) v.sectors_per_cluster (place_of v c 0) (sectors_of v cs)
          (omega arith)
        ∙ ap (λ a. sectors_from a (suc k) ++ sectors_of v cs) place in
      let m : ℕ = min n (fd.size - fd.position) in
      let same_length = length-map content rest in
      let len : length (drop s (sectors_of v (c ∷ cs))) ≡ suc (length rest) = ap length dropped in
      subst (λ lbas. Reads read_sector v fd (map content lbas) m (fat_read read_sector n v fd))
        (sym dropped)
        (fat_read-Reads read_sector v n fd (content (place_of v c s)) (map content rest)
          (file-Chain cs k i c s fd l by_file at_c at_s (omega arith) holds) plain_file before small
          (omega arith))
