-- ===== src/Fat/Chains.antt =====
-- The sectors of a file, from the table of clusters (source/kernel/drivers/fat.c): where they lie on
-- the disk, told by the entries of the table and not by the code that walks them.
use waffle_os.Common.{
  ℕ, zero, suc, ◌+◌, ◌-◌, ◌*◌, ◌^◌, ◌≤◌, ◌<◌, ◌≡◌, refl, ap, ◌∙◌, Bool, true, false, List, [], ◌∷◌,
  ◌++◌, Option, some, leb, if◌then◌else◌, length, add32, sub32, mul32, arith,
}
use native.Mathlib.Nat.{mul-le-mul_right}
use waffle_os.Fat.{
  FileData, Volume, file, next_sector, next_place, read_place, read_into, next_cluster,
  cluster_to_lba,
}
use waffle_os.Fat.Entries.{packed, next_cluster-packed}

-- n sectors in a row.
abbrev pub sectors_from : ℕ → ℕ → List ℕ
sectors_from lba zero = []
sectors_from lba (suc n) = lba ∷ sectors_from (lba + 1) n

-- The sector of a cluster: the data section starts with cluster 2.
abbrev pub place_of : Volume → ℕ → ℕ → ℕ
place_of v cluster sector = v.data_section_lba + (cluster - 2) * v.sectors_per_cluster + sector

-- All sectors of the clusters.
abbrev pub sectors_of : Volume → List ℕ → List ℕ
sectors_of v [] = []
sectors_of v (cluster ∷ rest) =
    sectors_from (place_of v cluster 0) v.sectors_per_cluster ++ sectors_of v rest

-- Each cluster is one of the data section, and its entry is the number of the next one.
abbrev pub Linked : (ℕ → ℕ) → ℕ → List ℕ → Type 0
Linked entry cluster [] = (2 ≤ cluster) × (cluster < 0xFF8)
Linked entry cluster (next ∷ rest) =
    ((2 ≤ cluster) × (cluster < 0xFF8)) × (entry cluster ≡ next) × Linked entry next rest

-- A volume with a table of 12-bit entries, whose sectors have this content.
pub record IsVolume (read_sector : ℕ → Option (List ℕ)) (content : ℕ → List ℕ) (entry : ℕ → ℕ)
    (v : Volume) : Type 0 where
  pub table : v.fat ≡ packed entry
  pub entries : (i : ℕ) → entry i < 2 ^ 12
  pub some_sectors : 0 < v.sectors_per_cluster
  pub few_sectors : v.sectors_per_cluster < 2 ^ 8
  pub low_data : v.data_section_lba < 2 ^ 31
  pub readable : (lba : ℕ) → read_sector lba ≡ some (content lba)
  pub whole : (lba : ℕ) → length (content lba) ≡ 512

module _ (read_sector : ℕ → Option (List ℕ)) (content : ℕ → List ℕ) (entry : ℕ → ℕ) (v : Volume)
    (h : IsVolume read_sector content entry v) where
  place-exact :
      (c s : ℕ)
      → 2 ≤ c
      → c < 0xFF8
      → s < v.sectors_per_cluster
      → add32 (cluster_to_lba v c) s ≡ place_of v c s
  unfolding cluster_to_lba
  place-exact c s low high inside =
      let few = h.few_sectors in
      let lowest = h.low_data in
      let within : c - 2 ≤ 0xFF6 = omega arith in
      let bound = mul-le-mul_right v.sectors_per_cluster within in
      let offset : sub32 c 2 ≡ c - 2 = omega arith in
      let product : mul32 (c - 2) v.sectors_per_cluster ≡ (c - 2) * v.sectors_per_cluster =
        omega arith in
      ap (λ k. add32 (add32 v.data_section_lba (mul32 k v.sectors_per_cluster)) s) offset
      ∙ ap (λ k. add32 (add32 v.data_section_lba k) s) product
      ∙ omega arith

  read_into-serves :
      (lba : ℕ) (fd : FileData)
      → read_into read_sector lba fd ≡ (true, record fd { buffer = content lba })
  unfolding read_into
  read_into-serves lba fd = rw (read_into, h.readable lba) refl

  read_place-serves :
      (s : ℕ) (fd : FileData)
      → fd.current_sector_in_cluster ≡ s
      → 2 ≤ fd.current_cluster
      → fd.current_cluster < 0xFF8
      → s < v.sectors_per_cluster
      → read_place read_sector v fd
        ≡ (true, record fd { buffer = content (place_of v fd.current_cluster s) })
  unfolding read_place
  read_place-serves s fd at_s low high inside =
      let c : ℕ = fd.current_cluster in
      let more : leb 0xFF8 c ≡ false = ground arith in
      let ends : Bool × FileData = (false, record fd { size = fd.position }) in
      ap
        (λ b.
          if b
          then ends
          else read_into read_sector (add32 (cluster_to_lba v c) fd.current_sector_in_cluster) fd)
        more
      ∙ ap (λ k. read_into read_sector (add32 (cluster_to_lba v c) k) fd) at_s
      ∙ ap (λ k. read_into read_sector k fd) (place-exact c s low high inside)
      ∙ read_into-serves (place_of v c s) fd

  -- Moving on within the cluster.
  pub same_cluster :
      (i c s : ℕ) (fd : FileData)
      → fd.handle ≡ file i
      → fd.current_cluster ≡ c
      → fd.current_sector_in_cluster ≡ s
      → 2 ≤ c
      → c < 0xFF8
      → s + 1 < v.sectors_per_cluster
      → next_sector read_sector v fd.handle fd ≡ (
        true,
        record fd { current_sector_in_cluster = s + 1; buffer = content (place_of v c (s + 1)) },
      )
  unfolding next_sector next_place
  same_cluster i c s fd by_file at_c at_s low high inside =
      let few = h.few_sectors in
      let fd' : FileData = record fd { current_sector_in_cluster = s + 1 } in
      let next : add32 fd.current_sector_in_cluster 1 ≡ s + 1 = omega arith in
      let more : leb v.sectors_per_cluster (s + 1) ≡ false = ground arith in
      let last : FileData = record fd {
        current_sector_in_cluster = 0;
        current_cluster = next_cluster v.fat fd.current_cluster;
      } in
      let low' : 2 ≤ fd.current_cluster = omega arith in
      let high' : fd.current_cluster < 0xFF8 = omega arith in
      ap (λ k. next_sector read_sector v k fd) by_file
      ∙ ap
          (λ k. read_place read_sector v (
            if leb v.sectors_per_cluster k
            then last
            else record fd { current_sector_in_cluster = k }))
          next
      ∙ ap (λ b. read_place read_sector v (if b then last else fd')) more
      ∙ read_place-serves (s + 1) fd' refl low' high' inside
      ∙ ap (λ k. (true, record fd' { buffer = content (place_of v k (s + 1)) })) at_c

  -- Moving on to the next cluster.
  pub other_cluster :
      (i c next s : ℕ) (fd : FileData)
      → fd.handle ≡ file i
      → fd.current_cluster ≡ c
      → fd.current_sector_in_cluster ≡ s
      → c < 0xFF8
      → entry c ≡ next
      → 2 ≤ next
      → next < 0xFF8
      → s + 1 ≡ v.sectors_per_cluster
      → next_sector read_sector v fd.handle fd ≡ (
        true,
        record fd {
          current_cluster = next;
          current_sector_in_cluster = 0;
          buffer = content (place_of v next 0);
        },
      )
  unfolding next_sector next_place
  other_cluster i c next s fd by_file at_c at_s in_table linked low high last =
      let few = h.few_sectors in
      let step : add32 fd.current_sector_in_cluster 1 ≡ v.sectors_per_cluster = omega arith in
      let over : leb v.sectors_per_cluster v.sectors_per_cluster ≡ true = ground arith in
      let moved : ℕ → FileData =
        λ k. record fd { current_sector_in_cluster = 0; current_cluster = k } in
      let followed : next_cluster v.fat fd.current_cluster ≡ next =
        ap (λ k. next_cluster v.fat k) at_c
        ∙ ap (λ t. next_cluster t c) h.table
        ∙ next_cluster-packed entry c h.entries (omega arith)
        ∙ linked in
      ap (λ k. next_sector read_sector v k fd) by_file
      ∙ ap
          (λ k. read_place read_sector v (
            if leb v.sectors_per_cluster k
            then moved (next_cluster v.fat fd.current_cluster)
            else record fd { current_sector_in_cluster = k }))
          step
      ∙ ap
          (λ b. read_place read_sector v (
            if b
            then moved (next_cluster v.fat fd.current_cluster)
            else record fd { current_sector_in_cluster = v.sectors_per_cluster }))
          over
      ∙ ap (λ k. read_place read_sector v (moved k)) followed
      ∙ read_place-serves 0 (moved next) refl low high h.some_sectors
