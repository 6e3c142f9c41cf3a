-- ===== src/Fat/Tests.antt =====
-- A small FAT32 volume, and the theorems about volumes there: eight clusters of one sector, behind one
-- reserved sector and two tables of one sector each. The root directory is cluster 2.
use dek_os.Base.{
  ◌^◌, Mem, ℕ, ◌+◌, ◌*◌, ◌<◌, ◌≤◌, zero, suc, ok, ◌≢◌, ◌≡◌, refl, ◌⊎◌, inl, arith, true, List, ◌∷◌,
  [],
}
use dek_os.Storage.{Drive}
use dek_os.Storage.Sectors.{IsReady}
use dek_os.Storage.Image.{Image, image_ide, image-IsDisk}
use dek_os.Fat.{
  BootSector, fat_identify, fat_cluster_count, fat_size, fat_first_data, fat_data_count,
  fat_total_sectors, fat_root_dir_size, fat_set_cluster, fat_next_cluster, fat_write_data,
  fat_find_free_cluster,
}
use dek_os.Fat.Table.{IsVolume, IsEntry}
use dek_os.Fat.Table.{place}
use dek_os.Storage.Sectors.{reading, sector}
use dek_os.Fat.Change.{next_cluster-set_cluster}
use dek_os.Fat.Data.{HasData, first_sector}
use dek_os.Fat.Written.{IsFull, Written}
use dek_os.Fat.Read.{read_loop}
use dek_os.Fat.ReadBack.{ReadBack, read-write_data}
use dek_os.Fat.Write.{write_data-Written}
use dek_os.Fat.Search.{SameDisk, IsFirstFree, find_free_cluster-IsFirstFree}
use dek_os.Fat.Directory.{
  fat_convert_83, entry_at, fat_create_entry, fat_write_directory_entry, pack,
}
use dek_os.Fat.Directory.Names.{IsName, convert_83-IsName}
use dek_os.Fat.Directory.Locate.{IsEntryOf, write_directory_entry-IsEntryOf}
use dek_os.Memory.Text.Copy.{byte_or_nul}

abbrev small : BootSector
small = record {
  bytes_per_sector = 512;
  sectors_per_cluster = 1;
  reserved_sectors = 1;
  fat_count = 2;
  root_directory_entries = 0;
  total_sectors_in_volume = 11;
  sectors_per_fat = 0;
  extended_sector_count = 0;
  fat16_signature = 0;
  fat32_sectors_per_fat = 1;
  fat32_root_cluster = 2;
  fat32_signature = 0x29;
}

-- an empty drive
abbrev blank : Drive Image
blank = record {
  buffer_a = λ _. 0;
  reads = true;
  writes = true;
  lba = 0;
  valid = true;
  present = true;
  drive_num = 0;
  size_of_op = 0;
  device = λ l i. 0;
}

blank-IsReady : IsReady blank
blank-IsReady = record { reads = refl; writes = refl; valid = refl; present = refl }

small-IsVolume : IsVolume small 11
unfolding fat_identify fat_cluster_count fat_size fat_data_count fat_total_sectors fat_root_dir_size
small-IsVolume = record {
  fat32 = refl;
  bytes_per_sector = refl;
  placed = omega arith;
  addressable = omega arith;
  covered = omega arith;
  few = omega arith;
}

small-HasData : HasData small 11
unfolding fat_cluster_count fat_size fat_first_data fat_root_dir_size fat_data_count
    fat_total_sectors
small-HasData = record {
  volume = small-IsVolume;
  some_sectors = omega arith;
  few_sectors = omega arith;
  behind = omega arith;
  ends = omega arith;
}

small-IsEntry : (c : ℕ) → c < 10 → IsEntry small c
unfolding fat_size
small-IsEntry c h = record { inside = omega arith; small = omega arith }

next_cluster-set_cluster_example :
    (d' : Drive Image) × (fat_set_cluster image_ide small 3 7 blank ≡ ok d')
    × (fat_next_cluster image_ide small 3 d' ≡ ok (7, reading image_ide (place small 3) d'))
next_cluster-set_cluster_example =
    next_cluster-set_cluster image_ide small 11 small-IsVolume 3 7 blank blank-IsReady
      (image-IsDisk 0 11) (small-IsEntry 3 (omega arith)) 3 (small-IsEntry 3 (omega arith))

-- 1300 bytes, which need three clusters
write_data-Written_example :
    (r : ℕ) × (d' : Drive Image) × (fat_write_data image_ide small (λ k. k) 1300 blank ≡ ok (r, d'))
    × (((r ≡ 0) × IsFull image_ide small d')
        ⊎ ((c : ℕ) × (cs : List ℕ) × (r ≡ c)
            × Written image_ide small (λ k. k) 0 0 1300 blank d' (c ∷ cs)))
write_data-Written_example =
    write_data-Written image_ide small 11 small-HasData (λ k. k) 1300 blank blank-IsReady
      (image-IsDisk 0 11) (omega arith) (omega arith)

-- "AB.C"
abbrev file_name : ℕ → ℕ
file_name = byte_or_nul (b'A' ∷ b'B' ∷ b'.' ∷ b'C' ∷ [])

file_name-IsName : IsName file_name 2 1
file_name-IsName = record {
  short = omega arith;
  name = λ k h. letters k h;
  dot = refl;
  short_ext = omega arith;
  ext = λ k h. extension k h;
  ends = λ h. inl refl;
}
  where
    letters : (k : ℕ) → k < 2 → (file_name k ≢ 0) × (file_name k ≢ b'.')
    letters zero h = omega arith
    letters (suc zero) h = omega arith
    letters (suc (suc k)) h = absurd (omega arith)

    extension : (k : ℕ) → k < 1 → (file_name (2 + 1 + k) ≢ 0) × (file_name (2 + 1 + k) ≢ b'/')
    extension zero h = omega arith
    extension (suc k) h = absurd (omega arith)

write_directory_entry-IsEntryOf_example :
    (d' : Drive Image) × (fat_write_directory_entry image_ide small
        (pack image_ide small 2 0 1)
        (fat_create_entry file_name 5 1300 0x20)
        blank
      ≡ ok d')
    × IsEntryOf image_ide small file_name 5 1300 0x20
        (entry_at (sector image_ide d' (first_sector small 2 + 0)) (1 * 32))
    × ((l k : ℕ)
        → k < 512
        → (l ≡ first_sector small 2 + 0 → (k < 1 * 32) ⊎ (1 * 32 + 32 ≤ k))
        → sector image_ide d' l k ≡ sector image_ide blank l k)
unfolding fat_cluster_count fat_data_count fat_total_sectors fat_size fat_root_dir_size
write_directory_entry-IsEntryOf_example =
    write_directory_entry-IsEntryOf image_ide small 11 small-HasData 2 0 1 5 1300 0x20 file_name
      blank blank-IsReady (image-IsDisk 0 11) (omega arith, omega arith) (omega arith) (omega arith)
      (omega arith) (omega arith) (omega arith)

find_free_cluster-IsFirstFree_example :
    (r : ℕ) × (d' : Drive Image) × (fat_find_free_cluster image_ide small blank ≡ ok (r, d'))
    × SameDisk blank d'
    × IsFirstFree image_ide small blank (fat_cluster_count small) 2 r
find_free_cluster-IsFirstFree_example =
    find_free_cluster-IsFirstFree image_ide small 11 small-IsVolume blank blank-IsReady

convert_83-IsName_example :
    ((fat_convert_83 file_name).0 1 ≡ b'B') × ((fat_convert_83 file_name).1 1 ≡ b' ')
convert_83-IsName_example = convert_83-IsName file_name 2 1 1 file_name-IsName

read-write_data_example :
    (c : ℕ) × (d' : Drive Image) × (fat_write_data image_ide small (λ k. k) 1300 blank ≡ ok (c, d'))
    × (((c ≡ 0) × IsFull image_ide small d')
        ⊎ ((m' : Mem) × (d'' : Drive Image) × (read_loop image_ide small
                (2 ^ 32)
                c
                4096
                1300
                (λ _. 0)
                d'
              ≡ ok (m', d''))
            × ReadBack image_ide small (λ k. k) 0 1300 4096 (λ _. 0) m'))
unfolding fat_cluster_count fat_data_count fat_total_sectors fat_size fat_root_dir_size
read-write_data_example =
    read-write_data image_ide small 11 small-HasData (λ k. k) (λ _. 0) 1300 4096 blank blank-IsReady
      (image-IsDisk 0 11) (omega arith) (omega arith) (omega arith)
