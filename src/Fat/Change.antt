-- ===== src/Fat/Change.antt =====
-- Changing entries of the file allocation table of a FAT32 volume, src/drivers/fs/fat.c.
use dek_os.Base.{
  ℕ, ◌+◌, ◌*◌, ◌%◌, ◌^◌, ◌≤◌, ◌<◌, ◌≡◌, refl, ◌⊎◌, inl, inr, arith, false, ltb, ◌==◌, if◌then◌else◌,
  Bool-cases, ok, load32, load32-store32_wrap, load32-store32_apart, load32-same,
}
use dek_os.Storage.{Ide, IsDisk, Drive, buffer_size, ide_read_data, ide_write_data}
use dek_os.Storage.Sectors.{IsReady, sector, reading, writing, read_from-IsReady}
use dek_os.Fat.{BootSector, fat_size, fat_next_cluster, fat_set_cluster}
use dek_os.Fat.Table.{
  IsVolume, IsEntry, place, offset_in, fat_sector-IsEntry, second_sector-IsEntry,
  ent_offset-IsEntry, places_apart, entry, changed_sector, with_buffer, setting, write_out-IsReady,
  setting-IsReady, next_cluster-entry,
}

module _ {D : Type 0} (ide : Ide D) (bt : BootSector) where
  -- What changing the entry of a cluster does: that entry is changed, every other entry and every
  -- sector outside the two tables stays.
  pub record IsChanged (c value : ℕ) (d d' : Drive D) : Type 0 where
    pub ready : IsReady d'
    pub same_drive : d'.drive_num ≡ d.drive_num
    pub entries :
        (c' : ℕ)
        → IsEntry bt c'
        → entry ide bt d' c' ≡ (if c' == c then value % 2 ^ 28 else entry ide bt d c')
    pub outside :
        (l i : ℕ)
        → (l < bt.reserved_sectors) ⊎ (bt.reserved_sectors + 2 * fat_size bt ≤ l)
        → i < 512
        → sector ide d' l i ≡ sector ide d l i

  module _ (sectors : ℕ) (volume : IsVolume bt sectors) where
    set_cluster-setting :
        (c value : ℕ) (d : Drive D)
        → IsReady d
        → IsEntry bt c
        → fat_set_cluster ide bt c value d ≡ ok (setting ide bt c value d)
    unfolding fat_set_cluster ide_read_data ide_write_data
    set_cluster-setting c value d r v =
        rw
          (
            fat_sector-IsEntry bt sectors c volume v,
            second_sector-IsEntry bt sectors c volume v,
            ent_offset-IsEntry bt sectors c volume v,
            read_from-IsReady ide (place bt c) d r,
            write_out-IsReady ide bt (place bt c) (changed_sector ide bt d c value) buffer_size
                (with_buffer ide bt (changed_sector ide bt d c value) (reading ide (place bt c) d))
                (ready d r) (omega arith),
            write_out-IsReady ide bt (place bt c + fat_size bt)
                (λ j.
                  if ltb j buffer_size
                  then changed_sector ide bt d c value j
                  else changed_sector ide bt d c value j)
                buffer_size
                (writing ide (place bt c) (changed_sector ide bt d c value) buffer_size (
                  with_buffer ide bt (changed_sector ide bt d c value)
                    (reading ide (place bt c) d)))
                (written d r) (omega arith),
          )
          refl
      where
        ready :
            (d : Drive D)
            → IsReady d
            → IsReady
                (with_buffer ide bt (changed_sector ide bt d c value) (reading ide (place bt c) d))
        ready d r = record {
          reads = r.reads;
          writes = r.writes;
          valid = r.valid;
          present = r.present;
        }

        written :
            (d : Drive D)
            → IsReady d
            → IsReady (
                writing ide (place bt c) (changed_sector ide bt d c value) buffer_size (
                  with_buffer ide bt
                    (changed_sector ide bt d c value)
                    (reading ide (place bt c) d)))
        written d r = record {
          reads = r.reads;
          writes = r.writes;
          valid = r.valid;
          present = r.present;
        }

    module _ (c value : ℕ) (d : Drive D) (r : IsReady d) (disk : IsDisk ide d.drive_num sectors)
        (v : IsEntry bt c) where
      sector-setting :
          (l i : ℕ)
          → i < 512
          → sector ide (setting ide bt c value d) l i ≡ (
              if l == place bt c + fat_size bt
              then changed_sector ide bt d c value i
              else if l == place bt c
              then changed_sector ide bt d c value i
              else sector ide d l i)
      unfolding ide_read_data ide_write_data
      sector-setting l i h =
          let low : place bt c < sectors = omega (arith, v.inside, volume.placed) in
          let high : place bt c + fat_size bt < sectors = omega (arith, v.inside, volume.placed) in
          let first =
            writing ide (place bt c) (changed_sector ide bt d c value) buffer_size
              (with_buffer ide bt (changed_sector ide bt d c value) (reading ide (place bt c) d)) in
          let one = disk.read_written d.device (place bt c) l first.buffer_a (λ _. 0) i low h in
          let two =
            disk.read_written first.device (place bt c + fat_size bt) l
              (λ j. if ltb j buffer_size then first.buffer_a j else first.buffer_a j) (λ _. 0) i
              high h in
          ground (arith, one, two)

      word_here :
          (c' : ℕ)
          → place bt c' ≡ place bt c
          → load32 (sector ide (setting ide bt c value d) (place bt c')) (offset_in c')
            ≡ load32 (changed_sector ide bt d c value) (offset_in c')
      word_here c' same =
          load32-same _ _ (offset_in c')
            (λ i low high. ground (arith, sector-setting (place bt c') i (omega arith)))

      word_there :
          (c' : ℕ)
          → IsEntry bt c'
          → (place bt c' == place bt c) ≡ false
          → load32 (sector ide (setting ide bt c value d) (place bt c')) (offset_in c')
            ≡ load32 (sector ide d (place bt c')) (offset_in c')
      word_there c' v' apart =
          load32-same _ _ (offset_in c')
            (λ i low high. ground (arith, v'.inside, sector-setting (place bt c') i (omega arith)))

      entry-setting :
          (c' : ℕ)
          → IsEntry bt c'
          → entry ide bt (setting ide bt c value d) c'
            ≡ (if c' == c then value % 2 ^ 28 else entry ide bt d c')
      unfolding entry
      entry-setting c' v' = elim (Bool-cases (c' == c)) [
        | inl same ↦
            let e : c' ≡ c = ground arith in
            rw (same, e, word_here c refl, load32-store32_wrap _ (offset_in c)) (omega arith)
        | inr other ↦ rw other (elim (Bool-cases (place bt c' == place bt c)) [
          | inl shared ↦
              let e : place bt c' ≡ place bt c = ground arith in
              rw
                (
                  word_here c' e,
                  load32-store32_apart (sector ide d (place bt c)) (offset_in c) (offset_in c') _
                      (places_apart bt c c' other e),
                  e,
                )
                refl
          | inr apart ↦ rw (word_there c' v' apart) refl
        ])
      ]

      set-IsChanged : IsChanged c value d (setting ide bt c value d)
      unfolding ide_read_data ide_write_data
      set-IsChanged = record {
        ready = setting-IsReady ide bt c value d r;
        same_drive = refl;
        entries = entry-setting;
        outside = λ l i away h. untouched l i away h;
      }
        where
          untouched :
              (l i : ℕ)
              → (l < bt.reserved_sectors) ⊎ (bt.reserved_sectors + 2 * fat_size bt ≤ l)
              → i < 512
              → sector ide (setting ide bt c value d) l i ≡ sector ide d l i
          untouched l i (inl below) h = ground (arith, v.inside, sector-setting l i h)
          untouched l i (inr above) h = ground (arith, v.inside, sector-setting l i h)

      pub set_cluster-IsChanged :
          (d' : Drive D) × (fat_set_cluster ide bt c value d ≡ ok d') × IsChanged c value d d'
      set_cluster-IsChanged =
          (setting ide bt c value d, set_cluster-setting c value d r v, set-IsChanged)

      -- On a FAT32 volume of sectors of 512 bytes, whose two tables lie inside a drive that works, and for
      -- clusters that have an entry in the tables: after `FatSetCluster` of a cluster and a value,
      -- `FatNextCluster` gives the low 28 bits of the value for that cluster, and for every other cluster
      -- the entry that the table had before.
      pub next_cluster-set_cluster :
          (c' : ℕ)
          → IsEntry bt c'
          → (d' : Drive D) × (fat_set_cluster ide bt c value d ≡ ok d')
            × (fat_next_cluster ide bt c' d'
                ≡ ok (
                  if c' == c then value % 2 ^ 28 else entry ide bt d c',
                  reading ide (place bt c') d',
                ))
      next_cluster-set_cluster c' v' =
          let (d', e, done) = set_cluster-IsChanged in
          (
            d',
            e,
            rw (next_cluster-entry ide bt sectors volume c' d' done.ready v', done.entries c' v')
                refl,
          )
