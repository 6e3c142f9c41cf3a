-- ===== src/Storage.antt =====
-- Drives, src/drivers/fs/storage.h and src/drivers/fs/storage.c: the sectors of a drive behind its
-- buffer, the table of drives, and the stack of drives.
--
-- A drive is one of the IDE driver. What the driver does with the device, over its ports, is a
-- parameter: the type of the states of the devices, and what reading and writing a sector do.
pub mod Sectors
pub mod Manager
pub mod Files
mod Tests
pub mod Image
use dek_os.Base.{
  ℕ, ◌+◌, ◌-◌, ◌≤◌, ◌<◌, ◌≡◌, Bool, not, ◌&&◌, ◌||◌, ltb, leb, ◌==◌, if◌then◌else◌, Option, none,
  some, Mem,
}

-- `IDEReadSectors` and `IDEWriteSectors` of one sector, on the drive and the sector of those numbers:
-- the bytes of the buffer after the read, and the devices after the write.
pub record Ide (D : Type 0) : Type 0 where
  pub read_sectors : D → ℕ → ℕ → Mem → Mem
  pub write_sectors : D → ℕ → ℕ → Mem → D

-- Drive `n` works: a sector holds what was last written to it, and is read into the first 512 bytes
-- of the buffer.
pub record IsDisk {D : Type 0} (ide : Ide D) (n sectors : ℕ) : Type 0 where
  pub read_written :
      (dev : D) (l l' : ℕ) (b b' : Mem) (i : ℕ)
      → l < sectors
      → i < 512
      → ide.read_sectors (ide.write_sectors dev n l b) n l' b' i
        ≡ (if l' == l then b i else ide.read_sectors dev n l' b' i)
  pub read_past : (dev : D) (l : ℕ) (b : Mem) (i : ℕ) → 512 ≤ i → ide.read_sectors dev n l b i ≡ b i

-- `DRIVE`: `reads` and `writes` say that the function pointers `ReadData` and `WriteData` are those of
-- the IDE driver and not NULL.
pub record Drive (D : Type 0) : Type 0 where
  pub buffer_a : Mem
  pub reads : Bool
  pub writes : Bool
  pub lba : ℕ
  pub valid : Bool
  pub present : Bool
  pub drive_num : ℕ
  pub size_of_op : ℕ
  pub device : D

-- `sizeof(BufferA)`
abbrev pub buffer_size : ℕ
buffer_size = 2048

module _ {D : Type 0} (ide : Ide D) where
  unfoldable pub ide_read_data : Drive D → Drive D
  ide_read_data d = record d { buffer_a = ide.read_sectors d.device d.drive_num d.lba (λ _. 0) }

  unfoldable pub ide_write_data : Drive D → Drive D
  ide_write_data d = record d { device = ide.write_sectors d.device d.drive_num d.lba d.buffer_a }

  -- Both give the drive; the pointer they return is to its buffer, and NULL is `none`.
  unfoldable pub sm_read_from : ℕ → Drive D → Option (Drive D)
  unfolding ide_read_data
  sm_read_from lba d =
      if d.reads && d.valid && d.present
      then some (ide_read_data (record d { lba = lba }))
      else none

  unfoldable pub sm_write_to : ℕ → Mem → ℕ → Drive D → Option (Drive D)
  unfolding ide_write_data
  sm_write_to lba buf size d =
      if d.writes && d.valid && d.present && leb size buffer_size
      then some (
          ide_write_data (record d {
            lba = lba;
            buffer_a = λ i. if ltb i size then buf i else d.buffer_a i;
            size_of_op = size;
          }))
      else none
