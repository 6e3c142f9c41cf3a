-- ===== src/Fat.antt =====
-- FAT volumes, src/drivers/fs/fat.h and src/drivers/fs/fat.c: the boot sector, the geometry that it
-- gives, and the file allocation table.
--
-- `DWORD` arithmetic is taken modulo 2 ^ 32. Masking with 0x0FFFFFFF is the rest modulo 2 ^ 28, and a
-- little-endian word of a sector is read and written byte by byte. Through the pointer NULL, which
-- `SMReadFrom` gives for a drive that is not there, the code faults.
pub mod Directory
pub mod Path
pub mod Table
pub mod Change
pub mod Search
pub mod Data
pub mod Chain
pub mod Written
pub mod Write
pub mod Read
pub mod ReadIn
pub mod ReadBack
mod Tests
use Prim.Native.Nat.{min}
use dek_os.Base.{
  ℕ, zero, suc, ◌+◌, ◌-◌, ◌*◌, ◌/◌, ◌%◌, ◌^◌, Bool, true, false, ◌&&◌, ◌||◌, ltb, ◌==◌,
  if◌then◌else◌, Option, none, some, Run, ok, hung, faulted, ◌>>=◌, Mem, load32, store32,
}
use dek_os.Storage.{Ide, Drive, buffer_size, sm_read_from, sm_write_to}

-- `FATBootSector`: the fields of the parameter block that the code reads, and of both views of the
-- union behind it.
pub record BootSector : Type 0 where
  pub bytes_per_sector : ℕ
  pub sectors_per_cluster : ℕ
  pub reserved_sectors : ℕ
  pub fat_count : ℕ
  pub root_directory_entries : ℕ
  pub total_sectors_in_volume : ℕ
  pub sectors_per_fat : ℕ
  pub extended_sector_count : ℕ
  pub fat16_signature : ℕ
  pub fat32_sectors_per_fat : ℕ
  pub fat32_root_cluster : ℕ
  pub fat32_signature : ℕ

-- `FATType`
pub data FatType : Type 0 where
  fat_unknown fat_12 fat_16 fat_32 : FatType

-- `*(WORD *)&b[i]`
abbrev pub word : Mem → ℕ → ℕ
word b i = b i + b (i + 1) * 2 ^ 8

-- `sizeof(FATDirectory)`
abbrev pub directory_size : ℕ
directory_size = 32

-- The fields at their offsets in the packed structure.
unfoldable pub boot_sector : Mem → BootSector
boot_sector b = record {
  bytes_per_sector = word b 11;
  sectors_per_cluster = b 13;
  reserved_sectors = word b 14;
  fat_count = b 16;
  root_directory_entries = word b 17;
  total_sectors_in_volume = word b 19;
  sectors_per_fat = word b 22;
  extended_sector_count = load32 b 32;
  fat16_signature = b 38;
  fat32_sectors_per_fat = load32 b 36;
  fat32_root_cluster = load32 b 44;
  fat32_signature = b 66;
}

-- A pointer returned by the storage manager, whose bytes are then accessed.
abbrev pub deref {ℓ} : {A : Type ℓ} → Option A → Run A
deref none = faulted
deref (some d) = ok d

unfoldable pub fat_total_sectors : BootSector → ℕ
fat_total_sectors bt =
    if bt.total_sectors_in_volume == 0 then bt.extended_sector_count else bt.total_sectors_in_volume

unfoldable pub fat_size : BootSector → ℕ
fat_size bt = if bt.sectors_per_fat == 0 then bt.fat32_sectors_per_fat else bt.sectors_per_fat

unfoldable pub fat_root_dir_size : BootSector → ℕ
fat_root_dir_size bt =
    (bt.root_directory_entries * directory_size + (bt.bytes_per_sector + 2 ^ 32 - 1))
    % 2 ^ 32
    / bt.bytes_per_sector

unfoldable pub fat_first_data : BootSector → ℕ
fat_first_data bt =
    (bt.reserved_sectors + bt.fat_count * fat_size bt + fat_root_dir_size bt) % 2 ^ 32

unfoldable pub fat_first_fat : BootSector → ℕ
fat_first_fat bt = bt.reserved_sectors

unfoldable pub fat_data_count : BootSector → ℕ
fat_data_count bt =
    (fat_total_sectors bt
      + 2 ^ 32
      - (bt.reserved_sectors + bt.fat_count * fat_size bt + fat_root_dir_size bt) % 2 ^ 32)
    % 2 ^ 32

unfoldable pub fat_cluster_count : BootSector → ℕ
fat_cluster_count bt = fat_data_count bt / bt.sectors_per_cluster

-- `FAT_EXT_BOOT_RECORD_16_SIGN_A` or `_B`
abbrev pub is_signature : ℕ → Bool
is_signature s = (s == 0x28) || (s == 0x29)

unfoldable pub fat_identify : BootSector → FatType
fat_identify bt =
    let total_clusters = fat_cluster_count bt in
    if ltb total_clusters 4085 && is_signature bt.fat16_signature
    then fat_12
    else if ltb total_clusters 65525 && is_signature bt.fat16_signature
    then fat_16
    else if is_signature bt.fat32_signature
    then fat_32
    else fat_unknown

unfoldable pub fat_first_root : BootSector → ℕ
fat_first_root bt = (fat_first_data bt + 2 ^ 32 - fat_root_dir_size bt) % 2 ^ 32

unfoldable pub fat_root_cluster : BootSector → ℕ
fat_root_cluster bt = bt.fat32_root_cluster

unfoldable pub fat_first_sector_for_cluster : BootSector → ℕ → ℕ
fat_first_sector_for_cluster bt cluster =
    ((cluster + 2 ^ 32 - 2) % 2 ^ 32 * bt.sectors_per_cluster + fat_first_data bt) % 2 ^ 32

-- `fatSector` and `entOffset` of an entry `offset` bytes into the table
abbrev pub fat_sector : BootSector → ℕ → ℕ
fat_sector bt offset = (fat_first_fat bt + offset / bt.bytes_per_sector) % 2 ^ 32

abbrev pub ent_offset : BootSector → ℕ → ℕ
ent_offset bt offset = offset % bt.bytes_per_sector

abbrev pub bytes_per_cluster : BootSector → ℕ
bytes_per_cluster bt = bt.sectors_per_cluster * bt.bytes_per_sector % 2 ^ 32

module _ {D : Type 0} (ide : Ide D) where
  unfoldable pub fat_read_boot_sector : Drive D → Run (BootSector × Drive D)
  fat_read_boot_sector d = do d' ← deref (sm_read_from ide 0 d); ok (boot_sector d'.buffer_a, d')

  -- A write whose result is not looked at.
  unfoldable pub write_out : ℕ → Mem → ℕ → Drive D → Drive D
  write_out lba buf size d = elim (sm_write_to ide lba buf size d) [ none ↦ d | some d' ↦ d' ]

  module _ (bt : BootSector) where
    unfoldable pub fat_next_cluster_32 : ℕ → Drive D → Run (ℕ × Drive D)
    fat_next_cluster_32 cluster d =
        let offset = cluster * 4 % 2 ^ 32 in
        do
          d' ← deref (sm_read_from ide (fat_sector bt offset) d)
          ok (load32 d'.buffer_a (ent_offset bt offset) % 2 ^ 28, d')

    unfoldable pub fat_next_cluster_16 : ℕ → Drive D → Run (ℕ × Drive D)
    fat_next_cluster_16 cluster d =
        let offset = cluster % 2 ^ 16 * 2 in
        do
          d' ← deref (sm_read_from ide (fat_sector bt offset) d)
          ok (word d'.buffer_a (ent_offset bt offset), d')

    -- An odd cluster has the upper twelve bits of its two bytes, an even one the lower twelve.
    unfoldable pub fat_next_cluster_12 : ℕ → Drive D → Run (ℕ × Drive D)
    fat_next_cluster_12 cluster d =
        let number = cluster % 2 ^ 16 in
        let offset = number + number / 2 in
        do
          d' ← deref (sm_read_from ide (fat_sector bt offset) d)
          let entry = word d'.buffer_a (ent_offset bt offset)
          ok (if number % 2 == 1 then entry / 2 ^ 4 else entry % 2 ^ 12, d')

    unfoldable pub fat_next_cluster : ℕ → Drive D → Run (ℕ × Drive D)
    fat_next_cluster cluster d = elim (fat_identify bt) [
      | fat_unknown ↦ ok (2 ^ 32 - 1, d)
      | fat_12 ↦ fat_next_cluster_12 cluster d
      | fat_16 ↦ fat_next_cluster_16 cluster d
      | fat_32 ↦ fat_next_cluster_32 cluster d
    ]

    -- `n` rounds left, at cluster `i`
    unfoldable pub find_free_cluster_loop : ℕ → ℕ → Drive D → Run (ℕ × Drive D)
    find_free_cluster_loop zero i d = ok (0, d)
    find_free_cluster_loop (suc n) i d =
        let offset = i * 4 % 2 ^ 32 in
        do
          d' ← deref (sm_read_from ide (fat_sector bt offset) d)
          elim (load32 d'.buffer_a (ent_offset bt offset) % 2 ^ 28 == 0) [
            | true ↦ ok (i, d')
            | false ↦ find_free_cluster_loop n (i + 1) d'
          ]

    -- `i` runs from 2 to below `totalClusters + 2`, which is a `DWORD`.
    unfoldable pub fat_find_free_cluster : Drive D → Run (ℕ × Drive D)
    fat_find_free_cluster d = find_free_cluster_loop ((fat_cluster_count bt + 2) % 2 ^ 32 - 2) 2 d

    -- The entry is changed in the sector and written to both tables.
    unfoldable pub fat_set_cluster : ℕ → ℕ → Drive D → Run (Drive D)
    fat_set_cluster cluster value d =
        let offset = cluster * 4 % 2 ^ 32 in
        let at = ent_offset bt offset in
        do
          read ← deref (sm_read_from ide (fat_sector bt offset) d)
          let entry = load32 read.buffer_a at / 2 ^ 28 * 2 ^ 28 + value % 2 ^ 28
          let changed : Drive D = record read { buffer_a = store32 read.buffer_a at entry }
          let first = write_out (fat_sector bt offset) changed.buffer_a buffer_size changed
          ok (
              write_out ((fat_sector bt offset + fat_size bt) % 2 ^ 32) first.buffer_a buffer_size
                first)

    unfoldable pub fat_allocate_cluster : Drive D → Run (ℕ × Drive D)
    fat_allocate_cluster d = do
      (free_cluster, d') ← fat_find_free_cluster d
      if free_cluster == 0
          then ok (0, d')
          else (do d'' ← fat_set_cluster free_cluster 0x0ffffff8 d'; ok (free_cluster, d''))

    -- The sectors of one cluster, `n` of them left, the first left being number `i`: `at` is how far
    -- `ptr` is in the data, and a sector is written whole.
    unfoldable pub write_cluster_loop : ℕ → Mem → ℕ → ℕ → ℕ → ℕ → ℕ → Drive D → ℕ × ℕ × Drive D
    write_cluster_loop zero bytes first i at write_size remaining d = (at, remaining, d)
    write_cluster_loop (suc n) bytes first i at write_size remaining d =
        let size = min write_size bt.bytes_per_sector in
        let rest : ℕ × ℕ × Drive D =
          write_cluster_loop n bytes first (i + 1) (at + size) (write_size - size)
            (remaining - size)
            (write_out ((first + i) % 2 ^ 32) (λ k. bytes (at + k)) bt.bytes_per_sector d) in
        if write_size == 0 then (at, remaining, d) else rest

    unfoldable pub write_data_loop : ℕ → Mem → ℕ → ℕ → ℕ → ℕ → Drive D → Run (ℕ × Drive D)
    write_data_loop zero bytes first prev at remaining d = hung
    write_data_loop (suc fuel) bytes first prev at remaining d = elim (remaining == 0) [
      | true ↦ ok (first, d)
      | false ↦ do
        (cluster, d₁) ← fat_allocate_cluster d
        if cluster == 0 then ok (0, d₁) else (do
          d₂ ← if prev == 0 then ok d₁ else fat_set_cluster prev cluster d₁
          let (at', remaining', d₃) =
              write_cluster_loop bt.sectors_per_cluster bytes
                (fat_first_sector_for_cluster bt cluster) 0 at
                (min remaining (bytes_per_cluster bt)) remaining d₂
          write_data_loop fuel bytes (if first == 0 then cluster else first) cluster at' remaining'
              d₃)
    ]

    -- `bytes` is what the pointer `data` points at.
    unfoldable pub fat_write_data : Mem → ℕ → Drive D → Run (ℕ × Drive D)
    fat_write_data bytes size d = write_data_loop (2 ^ 32) bytes 0 0 0 size d
