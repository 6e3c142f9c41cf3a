-- ===== src/Iso.antt =====
-- The ISO 9660 file system, src/drivers/fs/iso9660.c: the volume descriptors and the search of a
-- directory for a file. `cdRead` is a parameter: the bytes that it puts into the buffer, or `none` for
-- a result other than 0. The lookup in the path table and the reading of files are left out.
pub mod Search
mod Tests
use dek_os.Base.{
  ℕ, zero, suc, ◌+◌, ◌-◌, ◌*◌, ◌%◌, ◌^◌, Bool, true, false, not, ◌&&◌, ◌||◌, Mem, store, load32,
  ltb, leb, ◌==◌, if◌then◌else◌, Option, none, some, List, [], ◌∷◌, Run, ok, hung, ◌>>=◌,
}
use dek_os.Base.Int.{ℤ}
use dek_os.Memory.Text.{Str, toupper, strncpy, strchr, strcmp, memcmp}
use dek_os.Memory.Text.Copy.{byte_or_nul}
use dek_os.Fat.Directory.{matches}

-- `iso9660_initialized` and the bytes of `primary_desc`
pub record Iso : Type 0 where
  pub initialized : Bool
  pub primary_desc : Mem

-- "CD001"
abbrev identifier : Str
identifier = byte_or_nul (b'C' ∷ b'D' ∷ b'0' ∷ b'0' ∷ b'1' ∷ [])

abbrev is_identified : Mem → Bool
is_identified desc = matches (memcmp (λ k. desc (1 + k)) identifier 5)

-- `ISO9660_PRIMARY_DESC` is 1; the version stands at byte 6.
unfoldable pub parse_primary_descriptor : Mem → Iso → Bool × Iso
parse_primary_descriptor desc iso =
    if not (desc 0 == 1)
    then (false, iso)
    else (is_identified desc && (desc 6 == 1), record iso { primary_desc = desc })

unfoldable pub get_root_lba : Iso → ℕ
get_root_lba iso = if iso.initialized then load32 iso.primary_desc 158 else 0

unfoldable pub get_logical_block_size : Iso → ℕ
get_logical_block_size iso =
    if iso.initialized then iso.primary_desc 128 + iso.primary_desc 129 * 2 ^ 8 else 0

-- A `char` that stands for a number of 32 bits: it is signed.
abbrev pub extend_char : ℕ → ℕ
extend_char c = if ltb c 128 then c else c + 2 ^ 32 - 256

-- `sizeof(iso9660Dir_t)`, and the length of the name in its last byte
abbrev pub dir_size : ℕ
dir_size = 33

-- `for (char *p = s; *p; p++) *p = toupper(*p)`, from byte `i` on
unfoldable pub upper_loop : ℕ → Mem → ℕ → Run Mem
upper_loop zero m i = hung
upper_loop (suc fuel) m i =
    let rest = upper_loop fuel (store m i (toupper (m i))) (i + 1) in
    if m i == 0 then ok m else rest

-- `clean_name` of the record at `offset`; what the array holds behind the NUL is not read.
abbrev pub raw_name : Mem → ℕ → Mem
raw_name dir offset = λ k. if ltb k (dir (offset + 32)) then dir (offset + dir_size + k) else 0

unfoldable pub clean_name : Mem → ℕ → Run Mem
clean_name dir offset = do
  semicolon ← strchr (raw_name dir offset) b';'
  let cut : Mem = elim semicolon [
    | none ↦ raw_name dir offset
    | some i ↦ store (raw_name dir offset) i 0
  ]
  upper_loop (2 ^ 32) cut 0

-- `strcmp(clean_name, search_name)`
unfoldable pub record_order : Mem → Str → ℕ → Run ℤ
record_order dir search offset = do name ← clean_name dir offset; strcmp name search

-- The records from `offset` on: where the one with the name is.
unfoldable pub find_record_loop : ℕ → Mem → Str → ℕ → Run (Option ℕ)
find_record_loop zero dir search offset = hung
find_record_loop (suc fuel) dir search offset =
    if leb 2048 offset || (dir offset == 0) then ok none else (do
      order ← record_order dir search offset
      if matches order
          then ok (some offset)
          else find_record_loop fuel dir search ((offset + extend_char (dir offset)) % 2 ^ 32))

module _ (cd_read : ℕ → ℕ → Option Mem) where
  -- The descriptors from `lba` on, with `n` of them left.
  unfoldable pub volume_loop : ℕ → ℕ → Bool → Iso → Bool × Iso
  volume_loop zero lba found iso = (found, iso)
  volume_loop (suc n) lba found iso = elim (cd_read lba 1) [
    | none ↦ (false, iso)
    | some desc ↦
        let parsed = parse_primary_descriptor desc iso in
        if not (is_identified desc)
        then volume_loop n (lba + 1) found iso
        else if desc 0 == 1
        then (if parsed.0 then volume_loop n (lba + 1) true parsed.1 else (false, parsed.1))
        else if desc 0 == 255
        then (found, iso)
        else volume_loop n (lba + 1) found iso
  ]

  -- from `ISO9660_FIRST_VOLUME_DESC`, 16, to 31
  unfoldable pub read_volume_descriptors : Iso → Bool × Iso
  read_volume_descriptors iso = volume_loop 16 16 false iso

  -- `iso9660Init`, behind `cdInit`
  unfoldable pub iso_init : Iso → Bool × Iso
  iso_init iso =
      let (read, iso') = read_volume_descriptors iso in
      if read then (true, record iso' { initialized = true }) else (false, iso')

  unfoldable pub read_directory : Iso → ℕ → Option Mem
  read_directory iso lba = if iso.initialized then cd_read lba 1 else none

  -- The bytes of the record found; `old` is what the array of the name held before.
  unfoldable pub find_in_directory : Mem → Iso → ℕ → Str → Run (Option Mem)
  find_in_directory old iso lba filename = elim (read_directory iso lba) [
    | none ↦ ok none
    | some dir ↦ do
      search ← upper_loop (2 ^ 32) (strncpy old filename 255) 0
      found ← find_record_loop (2 ^ 32) dir search 0
      ok (elim found as (λ _. Option Mem) [ none ↦ none | some o ↦ some (λ k. dir (o + k)) ])
  ]
