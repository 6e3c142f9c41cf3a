-- ===== src/Fat/Table.antt =====
-- Reading and writing entries of the file allocation table of a FAT32 volume, src/drivers/fs/fat.c.
use dek_os.Base.{
  ℕ, ◌+◌, ◌*◌, ◌/◌, ◌%◌, ◌^◌, ◌≤◌, ◌<◌, ◌≡◌, refl, ◌⊎◌, inl, inr, arith, false, ltb, ◌==◌,
  Bool-cases, ok, Mem, load32, store32,
}
use dek_os.Storage.{Ide, Drive, buffer_size, ide_read_data, ide_write_data}
use dek_os.Storage.Sectors.{IsReady, sector, reading, writing, read_from-IsReady, write_to-IsReady}
use dek_os.Fat.{
  BootSector, fat_32, fat_size, fat_cluster_count, fat_first_fat, fat_identify, fat_sector,
  ent_offset, fat_next_cluster_32, fat_next_cluster, write_out,
}

-- A FAT32 volume of sectors of 512 bytes, whose two tables lie in the drive's sectors and have
-- an entry for every cluster.
pub record IsVolume (bt : BootSector) (sectors : ℕ) : Type 0 where
  pub fat32 : fat_identify bt ≡ fat_32
  pub bytes_per_sector : bt.bytes_per_sector ≡ 512
  pub placed : bt.reserved_sectors + 2 * fat_size bt ≤ sectors
  pub addressable : sectors < 2 ^ 32
  pub covered : fat_cluster_count bt + 2 ≤ fat_size bt * 128
  pub few : fat_cluster_count bt + 2 ≤ 2 ^ 28

-- A cluster number that has an entry in the table.
pub record IsEntry (bt : BootSector) (cluster : ℕ) : Type 0 where
  pub inside : cluster / 128 < fat_size bt
  pub small : cluster < 2 ^ 30

-- Every cluster of the volume has an entry.
pub cluster-IsEntry :
    (bt : BootSector) (sectors c : ℕ)
    → IsVolume bt sectors
    → c < fat_cluster_count bt + 2
    → IsEntry bt c
cluster-IsEntry bt sectors c volume h = record {
  inside = omega (arith, volume.covered);
  small = omega (arith, volume.few);
}

-- where the entry of a cluster is
abbrev pub place : BootSector → ℕ → ℕ
place bt c = bt.reserved_sectors + c / 128

abbrev pub offset_in : ℕ → ℕ
offset_in c = c % 128 * 4

module _ (bt : BootSector) (sectors c : ℕ) (volume : IsVolume bt sectors) (v : IsEntry bt c) where
  pub fat_sector-IsEntry : fat_sector bt (c * 4 % 2 ^ 32) ≡ place bt c
  unfolding fat_first_fat
  fat_sector-IsEntry =
      rw volume.bytes_per_sector
        (omega (arith, v.inside, v.small, volume.placed, volume.addressable))

  pub second_sector-IsEntry : (place bt c + fat_size bt) % 2 ^ 32 ≡ place bt c + fat_size bt
  second_sector-IsEntry = omega (arith, v.inside, volume.placed, volume.addressable)

  pub ent_offset-IsEntry : ent_offset bt (c * 4 % 2 ^ 32) ≡ offset_in c
  ent_offset-IsEntry = rw volume.bytes_per_sector (omega (arith, v.small))

-- Different clusters have different places.
pub places_apart :
    (bt : BootSector) (c c' : ℕ)
    → (c' == c) ≡ false
    → place bt c' ≡ place bt c
    → (offset_in c + 4 ≤ offset_in c') ⊎ (offset_in c' + 4 ≤ offset_in c)
places_apart bt c c' h same = elim (Bool-cases (ltb (c % 128) (c' % 128))) [
  | inl less ↦ inl (ground arith)
  | inr more ↦ inr (ground arith)
]

module _ {D : Type 0} (ide : Ide D) (bt : BootSector) where
  -- the entry of a cluster, as the table on the drive has it
  unfoldable pub entry : Drive D → ℕ → ℕ
  entry d c = load32 (sector ide d (place bt c)) (offset_in c) % 2 ^ 28

  -- the sector with the entry changed, and the drive with it written to both tables
  abbrev pub changed_sector : Drive D → ℕ → ℕ → Mem
  changed_sector d c value =
      let old = sector ide d (place bt c) in
      store32 old (offset_in c) (load32 old (offset_in c) / 2 ^ 28 * 2 ^ 28 + value % 2 ^ 28)

  abbrev pub with_buffer : Mem → Drive D → Drive D
  with_buffer b d = record d { buffer_a = b }

  abbrev pub setting : ℕ → ℕ → Drive D → Drive D
  setting c value d =
      let changed = with_buffer (changed_sector d c value) (reading ide (place bt c) d) in
      let first = writing ide (place bt c) changed.buffer_a buffer_size changed in
      writing ide (place bt c + fat_size bt) first.buffer_a buffer_size first

  pub reading-IsReady : (l : ℕ) (d : Drive D) → IsReady d → IsReady (reading ide l d)
  unfolding ide_read_data
  reading-IsReady l d r = record {
    reads = r.reads;
    writes = r.writes;
    valid = r.valid;
    present = r.present;
  }

  pub write_out-IsReady :
      (l : ℕ) (buf : Mem) (size : ℕ) (d : Drive D)
      → IsReady d
      → size ≤ buffer_size
      → write_out ide l buf size d ≡ writing ide l buf size d
  unfolding write_out
  write_out-IsReady l buf size d r h = rw (write_out, write_to-IsReady ide l buf size d r h) refl

  pub setting-IsReady : (c value : ℕ) (d : Drive D) → IsReady d → IsReady (setting c value d)
  unfolding ide_read_data ide_write_data
  setting-IsReady c value d r = record {
    reads = r.reads;
    writes = r.writes;
    valid = r.valid;
    present = r.present;
  }

  module _ (sectors : ℕ) (volume : IsVolume bt sectors) where
    pub next_cluster-entry :
        (c : ℕ) (d : Drive D)
        → IsReady d
        → IsEntry bt c
        → fat_next_cluster ide bt c d ≡ ok (entry d c, reading ide (place bt c) d)
    unfolding fat_next_cluster fat_next_cluster_32 entry ide_read_data
    next_cluster-entry c d r v =
        rw
          (
            fat_next_cluster,
            volume.fat32,
            fat_sector-IsEntry bt sectors c volume v,
            ent_offset-IsEntry bt sectors c volume v,
            read_from-IsReady ide (place bt c) d r,
          )
          refl
