-- ===== src/Fat/Directory.antt =====
-- Directories of a FAT volume, src/drivers/fs/fat.c: 8.3 names, entries and where they stand.
pub mod Names
pub mod Locate
use Prim.Native.Nat.{bit_or}
use dek_os.Base.{
  ℕ, zero, suc, ◌+◌, ◌-◌, ◌*◌, ◌/◌, ◌%◌, ◌^◌, Bool, true, false, not, ◌&&◌, ◌||◌, ltb, leb, ◌==◌,
  if◌then◌else◌, Option, none, some, Run, ok, hung, ◌>>=◌, Mem, load32,
}
use dek_os.Base.Int.{ℤ, pos, negsuc}
use dek_os.Memory.Text.{Str, ncsstrncmp}
use dek_os.Storage.{Ide, Drive, sm_read_from}
use dek_os.Fat.{
  BootSector, word, directory_size, deref, fat_root_cluster, fat_first_sector_for_cluster,
  fat_next_cluster, write_out, fat_write_data,
}

-- `FATDirectory`, without the times
pub record Directory : Type 0 where
  pub name : Str
  pub ext : Str
  pub flags : ℕ
  pub first_cluster_high : ℕ
  pub first_cluster_low : ℕ
  pub size : ℕ

-- The directory entry that starts at byte `i` of a sector.
unfoldable pub entry_at : Mem → ℕ → Directory
entry_at b i = record {
  name = λ k. b (i + k);
  ext = λ k. b (i + 8 + k);
  flags = b (i + 11);
  first_cluster_high = word b (i + 20);
  first_cluster_low = word b (i + 26);
  size = load32 b (i + 28);
}

-- `FAT_DIRECTORY`, bit 4 of the flags
abbrev pub is_directory : Directory → Bool
is_directory e = e.flags / 2 ^ 4 % 2 == 1

abbrev pub first_cluster : Directory → ℕ
first_cluster e = e.first_cluster_high * 2 ^ 16 + e.first_cluster_low

abbrev pub last_cluster : ℕ
last_cluster = 0x0ffffff8

-- `while (*path && *path != '.' && n < 8)`, with the rounds left and the name so far; the result is
-- how far the path was read too.
unfoldable pub convert_name : ℕ → Str → ℕ → Mem → Mem × ℕ
convert_name zero path n name = (name, n)
convert_name (suc rounds) path n name =
    let rest = convert_name rounds path (n + 1) (λ k. if k == n then path n else name k) in
    if (path n == 0) || (path n == b'.') then (name, n) else rest

-- `while (*path && e < 3 && (*path != '/'))`, from byte `start` of the path on
unfoldable pub convert_ext : ℕ → Str → ℕ → ℕ → Mem → Mem
convert_ext zero path start e ext = ext
convert_ext (suc rounds) path start e ext =
    let rest =
      convert_ext rounds path start (e + 1) (λ k. if k == e then path (start + e) else ext k) in
    if (path (start + e) == 0) || (path (start + e) == b'/') then ext else rest

-- `FatConvert83`: the eight bytes of the name and the three of the extension.
unfoldable pub fat_convert_83 : Str → Mem × Mem
fat_convert_83 path =
    let (name, n) = convert_name 8 path 0 (λ _. b' ') in
    let start = if path n == b'.' then n + 1 else n in
    (name, convert_ext 3 path start 0 (λ _. b' '))

-- `FatCreateEntry`
unfoldable pub fat_create_entry : Str → ℕ → ℕ → ℕ → Directory
fat_create_entry name cluster size attributes =
    let (name_83, ext) = fat_convert_83 name in
    record {
      name = name_83;
      ext = ext;
      flags = attributes;
      first_cluster_high = cluster / 2 ^ 16 % 2 ^ 16;
      first_cluster_low = cluster % 2 ^ 16;
      size = size;
    }

-- The bytes of an entry that `FatCreateEntry` made; the times are 0.
unfoldable pub entry_byte : Directory → ℕ → ℕ
entry_byte e k =
    if ltb k 8
    then e.name k
    else if ltb k 11
    then e.ext (k - 8)
    else if k == 11
    then e.flags
    else if k == 20
    then e.first_cluster_high % 2 ^ 8
    else if k == 21
    then e.first_cluster_high / 2 ^ 8
    else if k == 26
    then e.first_cluster_low % 2 ^ 8
    else if k == 27
    then e.first_cluster_low / 2 ^ 8
    else if leb 28 k
    then e.size / 2 ^ (8 * (k - 28)) % 2 ^ 8
    else 0

-- `FATFileLocation`
pub record FileLocation : Type 0 where
  pub dir : Directory
  pub cluster : ℕ
  pub offset : ℕ
  pub index : ℕ

-- `!ncsstrncmp(…)`
abbrev pub matches : ℤ → Bool
matches (pos zero) = true
matches _ = false

-- The entries of one sector, `n` of them left: the first is number `i`. The first byte of the entry
-- behind the last one, which the code looks at before it compares the index, is not read.
unfoldable pub locate_entry : ℕ → Str → Str → Mem → ℕ → Option (ℕ × Directory)
locate_entry zero name ext b i = none
locate_entry (suc n) name ext b i =
    let e = entry_at b (i * directory_size) in
    let rest = locate_entry n name ext b (i + 1) in
    if e.name 0 == 0
    then none
    else if (e.name 0 == 0xe5) || (e.ext 2 == 0x0f)
    then rest
    else if matches (ncsstrncmp e.name name 8) && matches (ncsstrncmp e.ext ext 3)
    then some (i, e)
    else rest

module _ {D : Type 0} (ide : Ide D) (bt : BootSector) where
  abbrev pub entries_per_sector : ℕ
  entries_per_sector = bt.bytes_per_sector / directory_size

  -- The sectors of one cluster, `n` of them left: the first is number `off`.
  unfoldable pub locate_sector :
      ℕ → Str → Str → ℕ → ℕ → ℕ → Drive D → Run (Option FileLocation × Drive D)
  locate_sector zero name ext cluster first off d = ok (none, d)
  locate_sector (suc n) name ext cluster first off d = do
    d' ← deref (sm_read_from ide ((first + off) % 2 ^ 32) d)
    elim (locate_entry entries_per_sector name ext d'.buffer_a 0) [
      | some (i, e) ↦ ok (some (record { dir = e; cluster = cluster; offset = off; index = i }), d')
      | none ↦ locate_sector n name ext cluster first (off + 1) d'
    ]

  unfoldable pub locate_loop : ℕ → Str → Str → ℕ → Drive D → Run (Option FileLocation × Drive D)
  locate_loop zero name ext cluster d = hung
  locate_loop (suc fuel) name ext cluster d = if leb last_cluster cluster then ok (none, d) else (do
    (found, d') ←
        locate_sector bt.sectors_per_cluster name ext cluster
          (fat_first_sector_for_cluster bt cluster) 0 d
    elim found [
      | some location ↦ ok (some location, d')
      | none ↦ do
        (next, d'') ← fat_next_cluster ide bt cluster d'
        locate_loop fuel name ext next d''
    ])

  -- `FatLocateInDir`; no parent is the root. `none` is a result whose `Found` is not set.
  unfoldable pub fat_locate_in_dir :
      Str → Str → Option Directory → Drive D → Run (Option FileLocation × Drive D)
  fat_locate_in_dir name ext none d = locate_loop (2 ^ 32) name ext (fat_root_cluster bt) d
  fat_locate_in_dir name ext (some parent) d =
      if is_directory parent
      then locate_loop (2 ^ 32) name ext (first_cluster parent) d
      else ok (none, d)

  -- The first entry of a sector that is free, of `n` from number `i` on.
  unfoldable pub free_entry : ℕ → Mem → ℕ → Option ℕ
  free_entry zero b i = none
  free_entry (suc n) b i =
      let rest = free_entry n b (i + 1) in
      if (b (i * directory_size) == 0) || (b (i * directory_size) == 0xe5) then some i else rest

  -- `(cluster << 16) | (s << 8) | i`
  unfoldable pub pack : ℕ → ℕ → ℕ → ℕ
  pack cluster s i = bit_or (bit_or (cluster * 2 ^ 16 % 2 ^ 32) (s * 2 ^ 8)) i

  unfoldable pub free_sector : ℕ → ℕ → ℕ → ℕ → Drive D → Run (Option ℕ × Drive D)
  free_sector zero cluster first s d = ok (none, d)
  free_sector (suc n) cluster first s d = do
    d' ← deref (sm_read_from ide ((first + s) % 2 ^ 32) d)
    elim (free_entry entries_per_sector d'.buffer_a 0) [
      | some i ↦ ok (some (pack cluster s i), d')
      | none ↦ free_sector n cluster first (s + 1) d'
    ]

  unfoldable pub find_free_entry_loop : ℕ → ℕ → Drive D → Run (ℕ × Drive D)
  find_free_entry_loop zero cluster d = hung
  find_free_entry_loop (suc fuel) cluster d = if leb last_cluster cluster then ok (0, d) else (do
    (found, d') ←
        free_sector bt.sectors_per_cluster cluster (fat_first_sector_for_cluster bt cluster) 0 d
    elim found [
      | some location ↦ ok (location, d')
      | none ↦ do
        (next, d'') ← fat_next_cluster ide bt cluster d'
        find_free_entry_loop fuel next d''
    ])

  unfoldable pub fat_find_free_entry : ℕ → Drive D → Run (ℕ × Drive D)
  fat_find_free_entry dir_cluster d = find_free_entry_loop (2 ^ 32) dir_cluster d

  -- the fields of a location
  abbrev pub location_cluster : ℕ → ℕ
  location_cluster location = location / 2 ^ 16

  abbrev pub location_sector : ℕ → ℕ
  location_sector location = location / 2 ^ 8 % 2 ^ 8

  abbrev pub location_index : ℕ → ℕ
  location_index location = location % 2 ^ 8

  -- an entry copied over entry `i` of a sector
  abbrev pub with_entry : ℕ → Directory → Mem → Mem
  with_entry i e b = λ k.
      if leb (i * directory_size) k && ltb k (i * directory_size + directory_size)
      then entry_byte e (k - i * directory_size)
      else b k

  unfoldable pub fat_write_directory_entry : ℕ → Directory → Drive D → Run (Drive D)
  fat_write_directory_entry location e d =
      let first = fat_first_sector_for_cluster bt (location_cluster location) in
      let lba = (first + location_sector location) % 2 ^ 32 in
      do
        read ← deref (sm_read_from ide lba d)
        let changed : Drive D = record read {
          buffer_a = with_entry (location_index location) e read.buffer_a;
        }
        ok (write_out ide lba changed.buffer_a bt.bytes_per_sector changed)

  -- `FatWrite`, with its results 0, -1 and -2; `FAT_ARCHIVE` is 0x20.
  unfoldable pub fat_write : Str → Mem → ℕ → Option Directory → Drive D → Run (ℤ × Drive D)
  fat_write path bytes size parent d =
      let parent_cluster : ℕ = elim parent [
        | none ↦ fat_root_cluster bt
        | some e ↦ first_cluster e
      ] in
      do
        (cluster, d₁) ← fat_write_data ide bt bytes size d
        if cluster == 0 then ok (negsuc 0, d₁) else (do
          (location, d₂) ← fat_find_free_entry parent_cluster d₁
          if location == 0 then ok (negsuc 1, d₂) else (do
            d₃ ← fat_write_directory_entry location (fat_create_entry path cluster size 0x20) d₂
            ok (pos 0, d₃)))
