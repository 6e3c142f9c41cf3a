-- ===== src/Fat/Directory/Locate.antt =====
-- Where `FatWriteDirectoryEntry` puts an entry, src/drivers/fs/fat.c.
use dek_os.Base.Bits.{or_low}
use dek_os.Base.{
  ℕ, ◌+◌, ◌-◌, ◌*◌, ◌%◌, ◌^◌, ◌≤◌, ◌<◌, ◌≡◌, refl, ◌∙◌, ◌⊎◌, inl, inr, Bool-cases, arith, true,
  false, ltb, leb, ◌&&◌, ◌==◌, if◌then◌else◌, ok, Mem, load32,
}
use dek_os.Memory.Text.{Str}
use dek_os.Storage.{Ide, IsDisk, Drive, ide_read_data, ide_write_data}
use dek_os.Storage.Sectors.{IsReady, sector, reading, writing, read_from-IsReady}
use dek_os.Fat.{BootSector, directory_size}
use dek_os.Fat.Table.{write_out-IsReady}
use dek_os.Fat.Data.{HasData, IsCluster, first_sector, first_sector-IsCluster, cluster_end}
use dek_os.Fat.Directory.{
  Directory, entry_at, entry_byte, first_cluster, fat_convert_83, fat_create_entry, pack,
  location_cluster, location_sector, location_index, with_entry, fat_write_directory_entry,
}

module _ {D : Type 0} (ide : Ide D) (bt : BootSector) where
  pack_lem :
      (c s i : ℕ) → s < 2 ^ 8 → i < 2 ^ 8 → pack ide bt c s i ≡ c % 2 ^ 16 * 2 ^ 16 + s * 2 ^ 8 + i
  unfolding pack
  pack_lem c s i hs hi =
      let high : c * 2 ^ 16 % 2 ^ 32 ≡ c % 2 ^ 16 * 2 ^ 16 = omega arith in
      let middle : c % 2 ^ 16 * 2 ^ 16 + s * 2 ^ 8 ≡ (c % 2 ^ 16 * 2 ^ 8 + s) * 2 ^ 8 =
        omega arith in
      rw
        (
          high,
          or_low 16 (c % 2 ^ 16) (s * 2 ^ 8) (omega arith),
          middle,
          or_low 8 (c % 2 ^ 16 * 2 ^ 8 + s) i hi,
        )
        (omega arith)

  -- A location keeps the sector and the index, but of the cluster the low 16 bits only: clusters from
  -- 2 ^ 16 on come back as others.
  pub location-pack :
      (c s i : ℕ)
      → s < 2 ^ 8
      → i < 2 ^ 8
      → let location = pack ide bt c s i in
        (location_cluster ide bt location ≡ c % 2 ^ 16)
        × (location_sector ide bt location ≡ s)
        × (location_index ide bt location ≡ i)
  location-pack c s i hs hi = rw (pack_lem c s i hs hi) (omega arith, omega arith, omega arith)

  -- An entry that reads as `FatCreateEntry` was told to make it.
  pub record IsEntryOf (path : Str) (c n a : ℕ) (e : Directory) : Type 0 where
    pub name : (k : ℕ) → k < 8 → e.name k ≡ (fat_convert_83 path).0 k
    pub ext : (k : ℕ) → k < 3 → e.ext k ≡ (fat_convert_83 path).1 k
    pub flags : e.flags ≡ a
    pub cluster : first_cluster e ≡ c
    pub size : e.size ≡ n

  module _ (i c n a : ℕ) (path : Str) (b b' : Mem) (hc : c < 2 ^ 32) (hn : n < 2 ^ 32)
      (same : (k : ℕ)
        → k < 32
        → b' (i * 32 + k) ≡ with_entry ide bt i (fat_create_entry path c n a) b (i * 32 + k)) where
    at_byte :
        (p k : ℕ) → p ≡ i * 32 + k → k < 32 → b' p ≡ entry_byte (fat_create_entry path c n a) k
    at_byte p k e h =
        let back : i * 32 + k - i * directory_size ≡ k = omega arith in
        let inside : (leb (i * directory_size) (i * 32 + k)
              && ltb (i * 32 + k) (i * directory_size + directory_size))
            ≡ true =
          ground arith in
        rw e (rw (inside, back) at (same k h))

    with_entry-IsEntryOf : IsEntryOf path c n a (entry_at b' (i * 32))
    unfolding entry_at entry_byte fat_create_entry load32
    with_entry-IsEntryOf = record {
      name = λ k h. ground (arith, at_byte (i * 32 + k) k refl (omega arith));
      ext = λ k h. ext k h;
      flags = at_byte (i * 32 + 11) 11 refl (omega arith);
      cluster = omega (
        arith,
        at_byte (i * 32 + 20) 20 refl (omega arith),
        at_byte (i * 32 + 20 + 1) 21 (omega arith) (omega arith),
        at_byte (i * 32 + 26) 26 refl (omega arith),
        at_byte (i * 32 + 26 + 1) 27 (omega arith) (omega arith),
      );
      size = omega (
        arith,
        at_byte (i * 32 + 28) 28 refl (omega arith),
        at_byte (i * 32 + 28 + 1) 29 (omega arith) (omega arith),
        at_byte (i * 32 + 28 + 2) 30 (omega arith) (omega arith),
        at_byte (i * 32 + 28 + 3) 31 (omega arith) (omega arith),
      );
    }
      where
        ext : (k : ℕ) → k < 3 → b' (i * 32 + 8 + k) ≡ (fat_convert_83 path).1 k
        ext k h =
            let back : 8 + k - 8 ≡ k = omega arith in
            let early : ltb (8 + k) 8 ≡ false = ground arith in
            let late : ltb (8 + k) 11 ≡ true = ground arith in
            rw (early, late, back) at (at_byte (i * 32 + 8 + k) (8 + k) (omega arith) (omega arith))

  -- On a FAT32 volume of sectors of 512 bytes, whose tables and clusters do not overlap and lie inside a
  -- drive that works: after `FatWriteDirectoryEntry` at a location in a cluster of the volume below
  -- 2 ^ 16, the entry that stands there reads as `FatCreateEntry` was told to make it, and every other
  -- byte of every sector is as it was.
  pub write_directory_entry-IsEntryOf :
      (sectors : ℕ) (v : HasData bt sectors) (cluster s i c n a : ℕ) (path : Str) (d : Drive D)
      → IsReady d
      → IsDisk ide d.drive_num sectors
      → IsCluster bt cluster
      → cluster < 2 ^ 16
      → s < bt.sectors_per_cluster
      → i < 16
      → c < 2 ^ 32
      → n < 2 ^ 32
      → (d' : Drive D) × (fat_write_directory_entry ide bt
            (pack ide bt cluster s i)
            (fat_create_entry path c n a)
            d
          ≡ ok d')
        × IsEntryOf path c n a (entry_at (sector ide d' (first_sector bt cluster + s)) (i * 32))
        × ((l k : ℕ)
            → k < 512
            → (l ≡ first_sector bt cluster + s → (k < i * 32) ⊎ (i * 32 + 32 ≤ k))
            → sector ide d' l k ≡ sector ide d l k)
  unfolding ide_read_data ide_write_data fat_write_directory_entry
  write_directory_entry-IsEntryOf sectors v cluster s i c n a path d r disk is low hs hi hc hn =
      let (at_cluster, at_s, at_i) =
        location-pack cluster s i (omega (arith, v.few_sectors)) (omega arith) in
      let short : cluster % 2 ^ 16 ≡ cluster = omega arith in
      let room = cluster_end bt sectors v cluster is in
      let small : (first_sector bt cluster + s) % 2 ^ 32 ≡ first_sector bt cluster + s =
        omega (arith, room, v.volume.addressable) in
      let lba = first_sector bt cluster + s in
      let e = fat_create_entry path c n a in
      let changed : Drive D = record (reading ide lba d) {
        buffer_a = with_entry ide bt i e (sector ide d lba);
      } in
      let ready : IsReady changed = record {
        reads = r.reads;
        writes = r.writes;
        valid = r.valid;
        present = r.present;
      } in
      let d' = writing ide lba changed.buffer_a bt.bytes_per_sector changed in
      let after : (l k : ℕ)
          → k < 512
          → sector ide d' l k
            ≡ (if l == lba then with_entry ide bt i e (sector ide d lba) k else sector ide d l k) =
        λ l k h. ground (
          arith,
          disk.read_written d.device lba l
              (λ j.
                if ltb j bt.bytes_per_sector
                then with_entry ide bt i e (sector ide d lba) j
                else with_entry ide bt i e (sector ide d lba) j)
              (λ _. 0) k (omega (arith, room)) h,
        ) in
      (
        d',
        rw
            (
              at_cluster,
              at_s,
              at_i,
              short,
              first_sector-IsCluster bt sectors v cluster is,
              small,
              read_from-IsReady ide lba d r,
              write_out-IsReady ide bt lba changed.buffer_a bt.bytes_per_sector changed ready
                  (omega (arith, v.volume.bytes_per_sector)),
            )
            refl,
        with_entry-IsEntryOf i c n a path (sector ide d lba) (sector ide d' lba) hc hn
            (λ k h. ground (arith, after lba (i * 32 + k) (omega arith))),
        λ l k h away. after l k h ∙ kept l k away,
      )
    where
      beside :
          (l k : ℕ)
          → l ≡ first_sector bt cluster + s
          → (k < i * 32) ⊎ (i * 32 + 32 ≤ k)
          → with_entry ide bt i
              (fat_create_entry path c n a)
              (sector ide d (first_sector bt cluster + s))
              k
            ≡ sector ide d l k
      beside l k e (inl before) =
          let outside : (leb (i * directory_size) k && ltb k (i * directory_size + directory_size))
              ≡ false =
            ground arith in
          rw (outside, e) refl
      beside l k e (inr behind) =
          let outside : (leb (i * directory_size) k && ltb k (i * directory_size + directory_size))
              ≡ false =
            ground arith in
          rw (outside, e) refl

      kept :
          (l k : ℕ)
          → (l ≡ first_sector bt cluster + s → (k < i * 32) ⊎ (i * 32 + 32 ≤ k))
          → (if l == first_sector bt cluster + s
              then with_entry ide bt i
                  (fat_create_entry path c n a)
                  (sector ide d (first_sector bt cluster + s))
                  k
              else sector ide d l k)
            ≡ sector ide d l k
      kept l k away = elim (Bool-cases (l == first_sector bt cluster + s)) [
        | inl here ↦
            let e : l ≡ first_sector bt cluster + s = ground arith in
            rw here (beside l k e (away e))
        | inr other ↦ rw other refl
      ]
