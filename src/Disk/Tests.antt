-- ===== src/Disk/Tests.antt =====
-- Sectors of a floppy of 80 cylinders.
use waffle_os.Common.{◌≤◌, ◌<◌, ◌≡◌, refl, arith}
use waffle_os.Disk.{Geometry, disk_lba_2_chs, lba_2_chs}
use waffle_os.Disk.Addresses.{chs_to_lba, disk_lba_2_chs-chs_to_lba, lba_2_chs-disk}

abbrev floppy : Geometry
floppy = record { cylinders = 80; sectors = 18; heads = 2 }

last_sector : lba_2_chs 2879 ≡ record { cylinder = 79; head = 1; sector = 18 }
unfolding lba_2_chs
last_sector = refl

disk_lba_2_chs-chs_to_lba_example :
    let a = disk_lba_2_chs floppy 1000 in
    (chs_to_lba 2 18 a ≡ 1000) × (a.cylinder < 80) × (a.head < 2) × (1 ≤ a.sector) × (a.sector ≤ 18)
disk_lba_2_chs-chs_to_lba_example =
    disk_lba_2_chs-chs_to_lba floppy 1000 (omega arith) (omega arith) (omega arith) (omega arith)
      (omega arith) (omega arith)

lba_2_chs-disk_example : lba_2_chs 1000 ≡ disk_lba_2_chs floppy 1000
lba_2_chs-disk_example = lba_2_chs-disk 80 1000
