-- ===== src/Disk.antt =====
-- Addresses of sectors: `DISK_LBA2CHS` of source/kernel/drivers/disk.c and `lba_2_chs` of
-- drivers/floppy.c. The results are 16-bit words.
pub mod Addresses
mod Tests
use waffle_os.Common.{ℕ, suc, ◌+◌, ◌*◌, ◌/◌, ◌%◌, ◌^◌}

pub record Geometry : Type 0 where
  pub cylinders : ℕ
  pub sectors : ℕ
  pub heads : ℕ

pub record Chs : Type 0 where
  pub cylinder : ℕ
  pub head : ℕ
  pub sector : ℕ

unfoldable pub disk_lba_2_chs : Geometry → ℕ → Chs
disk_lba_2_chs disk lba = record {
  cylinder = lba / disk.sectors / disk.heads % 2 ^ 16;
  head = lba / disk.sectors % disk.heads % 2 ^ 16;
  sector = (lba % disk.sectors + 1) % 2 ^ 16;
}

-- `FLOPPY_144_SECTORS_PER_TRACK`
abbrev pub sectors_per_track : ℕ
sectors_per_track = 18

unfoldable pub lba_2_chs : ℕ → Chs
lba_2_chs lba = record {
  cylinder = lba / (2 * sectors_per_track) % 2 ^ 16;
  head = lba % (2 * sectors_per_track) / sectors_per_track % 2 ^ 16;
  sector = (lba % (2 * sectors_per_track) % sectors_per_track + 1) % 2 ^ 16;
}
