-- ===== src/Fat/Read.antt =====
-- Reading a file, `FatRead` of src/drivers/fs/fat.c, `IDEReadFile` and `IDEWriteFile` of
-- src/drivers/fs/storage.c. The bytes of the heap are the memory that a file is read into.
use dek_os.Base.{
  ℕ, zero, suc, ◌+◌, ◌-◌, ◌%◌, ◌^◌, Bool, false, not, ◌&&◌, ltb, leb, ◌==◌, if◌then◌else◌, Option,
  none, some, Run, ok, hung, ◌>>=◌, Mem, store,
}
use dek_os.Base.Int.{ℤ, pos, negsuc}
use dek_os.Memory.Block.{memset}
use dek_os.Memory.Heap.{Heap, kmalloc}
use dek_os.Memory.Text.{Str, strrchr}
use dek_os.Memory.Text.Token.{strtok}
use dek_os.Storage.{Ide, Drive, sm_read_from}
use dek_os.Fat.{
  BootSector, deref, fat_first_sector_for_cluster, fat_next_cluster, fat_read_boot_sector,
  fat_root_cluster, fat_write_data,
}
use dek_os.Fat.Directory.{
  Directory, FileLocation, is_directory, first_cluster, last_cluster, fat_convert_83,
  fat_create_entry, fat_locate_in_dir, fat_find_free_entry, fat_write_directory_entry,
}
use dek_os.Fat.Path.{slash, path_copy}

-- `n` bytes of a sector copied to address `p`
abbrev pub copy_in : Mem → ℕ → Mem → ℕ → Mem
copy_in m p sector n = λ a. if leb p a && ltb a (p + n) then sector (a - p) else m a

-- `FATDirectory` with every field 0
abbrev pub no_entry : Directory
no_entry = record {
  name = λ _. 0;
  ext = λ _. 0;
  flags = 0;
  first_cluster_high = 0;
  first_cluster_low = 0;
  size = 0;
}

-- `Location.Dir` of a result of `FatLocateInDir`
abbrev pub dir_of : Option FileLocation → Directory
dir_of none = no_entry
dir_of (some l) = l.dir

module _ {D : Type 0} (ide : Ide D) where
  module _ (bt : BootSector) where
    -- The sectors of one cluster, `n` of them left, the first being number `off`: the new `p` and
    -- `remaining`, which wraps behind the last sector of the file, and the memory.
    unfoldable pub read_cluster_loop :
        ℕ → ℕ → ℕ → ℕ → ℕ → Mem → Drive D → Run (ℕ × ℕ × Mem × Drive D)
    read_cluster_loop zero first off p remaining m d = ok (p, remaining, m, d)
    read_cluster_loop (suc n) first off p remaining m d =
        let size = if ltb bt.bytes_per_sector remaining then bt.bytes_per_sector else remaining in
        do
          d' ← deref (sm_read_from ide ((first + off) % 2 ^ 32) d)
          read_cluster_loop n first (off + 1) (p + bt.bytes_per_sector)
              ((remaining + 2 ^ 32 - bt.bytes_per_sector) % 2 ^ 32) (copy_in m p d'.buffer_a size)
              d'

    unfoldable pub read_loop : ℕ → ℕ → ℕ → ℕ → Mem → Drive D → Run (Mem × Drive D)
    read_loop zero cluster p remaining m d = hung
    read_loop (suc fuel) cluster p remaining m d =
        if leb last_cluster cluster then ok (m, d) else (do
          (p', remaining', m', d') ←
              read_cluster_loop bt.sectors_per_cluster (fat_first_sector_for_cluster bt cluster) 0 p
                remaining m d
          (next, d'') ← fat_next_cluster ide bt cluster d'
          read_loop fuel next p' remaining' m' d'')

    -- `FatRead`; `none` is NULL.
    unfoldable pub fat_read :
        Str → Str → Option Directory → Heap → Drive D → Run (Option ℕ × Heap × Drive D)
    fat_read name ext parent h d =
        let no_directory : Bool = elim parent [ none ↦ false | some e ↦ not (is_directory e) ] in
        if no_directory then ok (none, h, d) else (do
          (location, d₁) ← fat_locate_in_dir ide bt name ext parent d
          let dir = dir_of location
          (data_ptr, h₁) ← kmalloc ((dir.size + 1) % 2 ^ 32) h
          let cleared = memset h₁.bytes data_ptr 0 ((dir.size + 1) % 2 ^ 32)
          (m, d₂) ← read_loop (2 ^ 32) (first_cluster dir) data_ptr dir.size cleared d₁
          ok (some data_ptr, record h₁ { bytes = m }, d₂))

    -- The segments of `IDEReadFile` from `segment` on, with the name of the segment before: the name
    -- of the last one and the last directory, or `none` for a segment that is not found.
    unfoldable pub read_path_loop :
        ℕ
        → Mem
        → Option ℕ
        → Option ℕ
        → Mem × Mem
        → Option Directory
        → Drive D
        → Run (Option (Mem × Mem × Option Directory) × Drive D)
    read_path_loop zero m segment save_ptr last current d = hung
    read_path_loop (suc fuel) m none save_ptr last current d =
        ok (some (last.0, last.1, current), d)
    read_path_loop (suc fuel) m (some segment) save_ptr last current d =
        let (name, ext) = fat_convert_83 (λ k. m (segment + k)) in
        do
          (loc, d') ← fat_locate_in_dir ide bt name ext current d
          elim loc [
            | none ↦ ok (none, d')
            | some found ↦ do
              (next, save_ptr', m') ← strtok none slash save_ptr m
              read_path_loop fuel m' next save_ptr' (name, ext)
                  (if is_directory found.dir then some found.dir else current) d'
          ]

    -- The segments of the path of the directory that `IDEWriteFile` writes to; `none` for one that
    -- is no directory.
    unfoldable pub write_path_loop :
        ℕ
        → Mem
        → Option ℕ
        → Option ℕ
        → Option Directory
        → Drive D
        → Run (Option (Option Directory) × Drive D)
    write_path_loop zero m segment save_ptr parent d = hung
    write_path_loop (suc fuel) m none save_ptr parent d = ok (some parent, d)
    write_path_loop (suc fuel) m (some segment) save_ptr parent d =
        let (name, ext) = fat_convert_83 (λ k. m (segment + k)) in
        do
          (loc, d') ← fat_locate_in_dir ide bt name ext parent d
          if not (is_directory (dir_of loc)) then ok (none, d') else (do
            (next, save_ptr', m') ← strtok none slash save_ptr m
            write_path_loop fuel m' next save_ptr' (some (dir_of loc)) d')

  -- A path of 255 bytes has at most 128 segments.
  unfoldable pub ide_read_file : Str → Heap → Drive D → Run (Option ℕ × Heap × Drive D)
  ide_read_file path h d = do
    (bt, d₁) ← fat_read_boot_sector ide d
    (segment, save_ptr, m) ← strtok (some 0) slash none (path_copy path)
    elim segment [
      | none ↦ ok (none, h, d₁)
      | some s ↦ do
        (located, d₂) ← read_path_loop bt 256 m (some s) save_ptr (λ _. 0, λ _. 0) none d₁
        elim located [
          | none ↦ ok (none, h, d₂)
          | some found ↦ fat_read bt found.0 found.1 found.2 h d₂
        ]
    ]

  -- The directory of a path and the name in it; `none` is the result -1.
  unfoldable pub split_path :
      BootSector → Mem → Drive D → Run (Option (Str × Option Directory) × Drive D)
  split_path bt copy d = do
    last_slash ← strrchr copy b'/'
    elim last_slash [
      | none ↦ ok (some (copy, none), d)
      | some at ↦ do
        (segment, save_ptr, m) ← strtok (some 0) slash none (store copy at 0)
        (parent, d') ← write_path_loop bt 256 m segment save_ptr none d
        elim parent [ none ↦ ok (none, d') | some p ↦ ok (some (λ k. copy (at + 1 + k), p), d') ]
    ]

  -- `IDEWriteFile`, with its results 0, -1, -2 and -3; whether the name is there already makes no
  -- difference but for a message. `FAT_ARCHIVE` is 0x20.
  unfoldable pub ide_write_file : Str → Mem → ℕ → Drive D → Run (ℤ × Drive D)
  ide_write_file path bytes size d = do
    (bt, d₁) ← fat_read_boot_sector ide d
    (split, d₂) ← split_path bt (path_copy path) d₁
    elim split [
      | none ↦ ok (negsuc 0, d₂)
      | some target ↦
          let (name, ext) = fat_convert_83 target.0 in
          let parent_cluster : ℕ = elim target.1 [
            | none ↦ fat_root_cluster bt
            | some e ↦ first_cluster e
          ] in
          do
            (_, d₃) ← fat_locate_in_dir ide bt name ext target.1 d₂
            (cluster, d₄) ← fat_write_data ide bt bytes size d₃
            if cluster == 0 then ok (negsuc 1, d₄) else (do
              (location, d₅) ← fat_find_free_entry ide bt parent_cluster d₄
              if location == 0 then ok (negsuc 2, d₅) else (do
                d₆ ←
                    fat_write_directory_entry ide bt location
                      (fat_create_entry target.0 cluster size 0x20) d₅
                ok (pos 0, d₆)))
    ]
