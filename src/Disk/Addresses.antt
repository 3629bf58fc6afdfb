-- ===== src/Disk/Addresses.antt =====
-- The addresses of sectors of drivers/disk.c and drivers/floppy.c, there and back.
use waffle_os.Common.{ℕ, ◌+◌, ◌-◌, ◌*◌, ◌/◌, ◌%◌, ◌^◌, ◌≤◌, ◌<◌, ◌≡◌, ◌∙◌, ap, arith}
use native.Mathlib.Nat.{mod-lt, mod-eq_of_lt, div-add-mod', div-lt_iff_lt-mul}
use waffle_os.Disk.{Geometry, Chs, disk_lba_2_chs, lba_2_chs}

-- The number of the sector at an address, which counts sectors from 1.
unfoldable pub chs_to_lba : ℕ → ℕ → Chs → ℕ
chs_to_lba heads sectors a = (a.cylinder * heads + a.head) * sectors + (a.sector - 1)

-- Every sector of a disk, whose numbers of cylinders, heads and sectors fit their 16-bit words and of which the last two are
-- not zero, has an
-- address within these numbers, the sector counted from 1, and the address leads back to the number of
-- the sector: nothing is lost in the words of the results.
pub disk_lba_2_chs-chs_to_lba :
    (disk : Geometry) (lba : ℕ)
    → 1 ≤ disk.sectors
    → disk.sectors < 2 ^ 16
    → 1 ≤ disk.heads
    → disk.heads ≤ 2 ^ 16
    → disk.cylinders ≤ 2 ^ 16
    → lba < disk.cylinders * disk.heads * disk.sectors
    → let a = disk_lba_2_chs disk lba in
      (chs_to_lba disk.heads disk.sectors a ≡ lba)
      × (a.cylinder < disk.cylinders)
      × (a.head < disk.heads)
      × (1 ≤ a.sector)
      × (a.sector ≤ disk.sectors)
unfolding disk_lba_2_chs chs_to_lba
disk_lba_2_chs-chs_to_lba disk lba some_sectors sectors_fit some_heads heads_fit cylinders_fit
      on_disk =
    let track = lba / disk.sectors in
    let s = lba % disk.sectors in
    let h = track % disk.heads in
    let c = track / disk.heads in
    let track_low : track < disk.cylinders * disk.heads =
      (div-lt_iff_lt-mul {k = disk.sectors} {x = lba} (omega arith)).1 on_disk in
    let c_low : c < disk.cylinders =
      (div-lt_iff_lt-mul {k = disk.heads} {x = track} (omega arith)).1 track_low in
    let h_low : h < disk.heads = mod-lt track (omega arith) in
    let s_low : s < disk.sectors = mod-lt lba (omega arith) in
    let c_kept : c % 2 ^ 16 ≡ c = mod-eq_of_lt (omega arith) in
    let h_kept : h % 2 ^ 16 ≡ h = mod-eq_of_lt (omega arith) in
    let s_kept : (s + 1) % 2 ^ 16 ≡ s + 1 = mod-eq_of_lt (omega arith) in
    let tracks : c * disk.heads + h ≡ track = div-add-mod' track disk.heads in
    let all : track * disk.sectors + s ≡ lba = div-add-mod' lba disk.sectors in
    let last : s + 1 - 1 ≡ s = omega arith in
    (
      ap (λ c'. (c' * disk.heads + h % 2 ^ 16) * disk.sectors + ((s + 1) % 2 ^ 16 - 1)) c_kept
          ∙ ap (λ h'. (c * disk.heads + h') * disk.sectors + ((s + 1) % 2 ^ 16 - 1)) h_kept
          ∙ ap (λ s'. (c * disk.heads + h) * disk.sectors + (s' - 1)) s_kept
          ∙ ap (λ t. t * disk.sectors + (s + 1 - 1)) tracks
          ∙ ap (λ s'. track * disk.sectors + s') last
          ∙ all,
      omega arith,
      omega arith,
      omega arith,
      omega arith,
    )

-- The driver of the floppy computes the address that the driver of the disks computes for a disk of two
-- heads and 18 sectors on a track.
pub lba_2_chs-disk :
    (cylinders lba : ℕ)
    → lba_2_chs lba ≡ disk_lba_2_chs (record { cylinders = cylinders; sectors = 18; heads = 2 }) lba
unfolding lba_2_chs disk_lba_2_chs
lba_2_chs-disk cylinders lba = grind arith
