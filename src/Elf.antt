-- ===== src/Elf.antt =====
-- The loader of ELF files, src/programs/elf/elf.h and src/programs/elf/elf.c: the format, the symbols
-- that the kernel gives to programs, and the values of symbols. A pointer is an address of the memory,
-- and what a file says is read from the memory where it stands. Access through NULL and division by 0
-- are faults.
pub mod Relocate
pub mod Load
pub mod Symbols
pub mod Entry
pub mod Register
pub mod Relocated
mod Tests
use dek_os.Base.{
  ℕ, zero, suc, ◌+◌, ◌-◌, ◌*◌, ◌/◌, ◌%◌, ◌^◌, Bool, true, false, not, ◌&&◌, ◌||◌, Mem, null, load32,
  store32, ltb, leb, ◌==◌, if◌then◌else◌, Option, none, some, Run, ok, hung, faulted, ◌>>=◌,
}
use dek_os.Base.Int.{ℤ, pos, negsuc}
use dek_os.Memory.Block.{int_count, memcpy}
use dek_os.Memory.Text.{strcmp}
use dek_os.Memory.Heap.{Heap, kmalloc, kfree}

abbrev pub load16 : Mem → ℕ → ℕ
load16 m p = m p + m (p + 1) * 2 ^ 8

-- `elf32EHeader_t`, at an address
abbrev pub e_type : Mem → ℕ → ℕ
e_type m hdr = load16 m (hdr + 16)

abbrev pub e_machine : Mem → ℕ → ℕ
e_machine m hdr = load16 m (hdr + 18)

abbrev pub e_version : Mem → ℕ → ℕ
e_version m hdr = load32 m (hdr + 20)

abbrev pub e_entry : Mem → ℕ → ℕ
e_entry m hdr = load32 m (hdr + 24)

abbrev pub e_shoff : Mem → ℕ → ℕ
e_shoff m hdr = load32 m (hdr + 32)

abbrev pub e_shnum : Mem → ℕ → ℕ
e_shnum m hdr = load16 m (hdr + 48)

-- `elf32SectionHeader_t`, of 40 bytes
abbrev pub sh_type : Mem → ℕ → ℕ
sh_type m s = load32 m (s + 4)

abbrev pub sh_flags : Mem → ℕ → ℕ
sh_flags m s = load32 m (s + 8)

abbrev pub sh_offset : Mem → ℕ → ℕ
sh_offset m s = load32 m (s + 16)

abbrev pub sh_size : Mem → ℕ → ℕ
sh_size m s = load32 m (s + 20)

abbrev pub sh_link : Mem → ℕ → ℕ
sh_link m s = load32 m (s + 24)

abbrev pub sh_info : Mem → ℕ → ℕ
sh_info m s = load32 m (s + 28)

abbrev pub sh_entsize : Mem → ℕ → ℕ
sh_entsize m s = load32 m (s + 36)

-- `elf32Symbol_t`, of 16 bytes
abbrev pub st_name : Mem → ℕ → ℕ
st_name m y = load32 m y

abbrev pub st_value : Mem → ℕ → ℕ
st_value m y = load32 m (y + 4)

abbrev pub st_shndx : Mem → ℕ → ℕ
st_shndx m y = load16 m (y + 14)

abbrev pub shn_abs : ℕ
shn_abs = 0xFFF1

-- `ELF_ERROR`, as an `int` of 32 bits
abbrev pub elf_error : ℕ
elf_error = 0xFFFFFFFF

abbrev pub et_rel : ℕ
et_rel = 1

abbrev pub et_exec : ℕ
et_exec = 2

unfoldable pub elf_check_file : Mem → ℕ → Bool
elf_check_file m hdr =
    if hdr == null
    then false
    else (m hdr == 0x7F) && (m (hdr + 1) == b'E') && (m (hdr + 2) == b'L') && (m (hdr + 3) == b'F')

unfoldable pub elf_check_supported : Mem → ℕ → Bool
elf_check_supported m hdr =
    let correct_arch = (m (hdr + 4) == 1) && (e_machine m hdr == 3) in
    let correct_data_fmt = m (hdr + 5) == 1 in
    let correct_version = e_version m hdr == 1 in
    let correct_text_fmt = (e_type m hdr == et_rel) || (e_type m hdr == et_exec) in
    if not (elf_check_file m hdr)
    then false
    else correct_arch && correct_data_fmt && correct_version && correct_text_fmt

-- `&elfSectionHeader(hdr)[idx]`
abbrev pub section_at : Mem → ℕ → ℕ → ℕ
section_at m hdr idx = (hdr + e_shoff m hdr + idx * 40) % 2 ^ 32

unfoldable pub elf_section : Mem → ℕ → ℕ → ℕ
elf_section m hdr idx =
    if (hdr == null) || leb (e_shnum m hdr) idx then null else section_at m hdr idx

-- The symbols of the kernel: `elf_extern_symbol_t` has the address of a name and an address.
pub record Externs : Type 0 where
  pub extern_symbols : ℕ
  pub extern_symbol_count : ℕ
  pub extern_symbol_capacity : ℕ

abbrev pub extern_name : Mem → Externs → ℕ → ℕ
extern_name m x i = load32 m (x.extern_symbols + i * 8)

abbrev pub extern_addr : Mem → Externs → ℕ → ℕ
extern_addr m x i = load32 m (x.extern_symbols + i * 8 + 4)

-- `elfLookupSymbol`, with `n` entries left from entry `i` on
unfoldable pub lookup_loop : ℕ → ℕ → Mem → Externs → ℕ → Run ℕ
lookup_loop zero i m x name = ok null
lookup_loop (suc n) i m x name =
    let rest = lookup_loop n (i + 1) m x name in
    do
      order ← strcmp (λ k. m (extern_name m x i + k)) (λ k. m (name + k))
      elim order [ pos zero ↦ ok (extern_addr m x i) | pos (suc _) ↦ rest | negsuc _ ↦ rest ]

unfoldable pub elf_lookup_symbol : Mem → Externs → ℕ → Run ℕ
elf_lookup_symbol m x name = lookup_loop x.extern_symbol_count 0 m x name

-- The two parts of `elfRegisterExternSymbol` that take memory, for the first table and for one of
-- twice the capacity; the first result is false where the function returns early.
unfoldable pub first_table : Externs → Heap → Run (Bool × Externs × Heap)
first_table x h = if not (x.extern_symbols == null) then ok (true, x, h) else (do
  (p, h') ← kmalloc (16 * 8) h
  ok (not (p == null), record x { extern_symbols = p; extern_symbol_capacity = 16 }, h'))

unfoldable pub grow_table : Externs → Heap → Run (Bool × Externs × Heap)
grow_table x h =
    let new_capacity = x.extern_symbol_capacity * 2 in
    if ltb x.extern_symbol_count x.extern_symbol_capacity then ok (true, x, h) else (do
      (p, h') ← kmalloc (new_capacity * 8) h
      let copied = memcpy h'.bytes p x.extern_symbols (x.extern_symbol_count * 8)
      if p == null then ok (false, x, h') else (do
        h'' ← kfree x.extern_symbols (record h' { bytes = copied })
        ok (true, record x { extern_symbols = p; extern_symbol_capacity = new_capacity }, h'')))

-- `extern_symbols[extern_symbol_count] = …`, and the count
unfoldable pub add_entry : ℕ → ℕ → Externs → Heap → Externs × Heap
add_entry name addr x h =
    let at = x.extern_symbols + x.extern_symbol_count * 8 in
    (
      record x { extern_symbol_count = x.extern_symbol_count + 1 },
      record h { bytes = store32 (store32 h.bytes at name) (at + 4) addr },
    )

unfoldable pub elf_register_extern_symbol : ℕ → ℕ → Externs → Heap → Run (Externs × Heap)
elf_register_extern_symbol name addr x h = do
  (found, x', h') ← first_table x h
  if not found then ok (x', h') else (do
    (grown, x'', h'') ← grow_table x' h'
    ok (if not grown then (x'', h'') else add_entry name addr x'' h''))

-- The name of an undefined symbol is looked up among the symbols of the kernel; the test for a weak
-- symbol behind that is never reached.
unfoldable pub elf_get_symbol_external : Externs → ℕ → ℕ → ℕ → Mem → Run ℕ
elf_get_symbol_external x hdr symbol header m =
    let strtab = elf_section m hdr (sh_link m header) in
    if strtab == null then ok elf_error else (do
      target ← elf_lookup_symbol m x ((hdr + sh_offset m strtab + st_name m symbol) % 2 ^ 32)
      ok (if target == null then elf_error else target))

unfoldable pub elf_get_symbol_value : Externs → ℕ → ℕ → ℕ → Mem → Run ℕ
elf_get_symbol_value x hdr table idx m =
    let symbol_table = elf_section m hdr table in
    let symbol = (hdr + sh_offset m symbol_table + idx * 16) % 2 ^ 32 in
    let target = elf_section m hdr (st_shndx m symbol) in
    if (table == 0) || (idx == 0)
    then ok 0
    else if (symbol_table == null) || (sh_entsize m symbol_table == 0)
    then faulted
    else if leb (sh_size m symbol_table / sh_entsize m symbol_table) idx
    then ok elf_error
    else if st_shndx m symbol == 0
    then elf_get_symbol_external x hdr symbol symbol_table m
    else if st_shndx m symbol == shn_abs
    then ok (st_value m symbol)
    else if target == null
    then ok elf_error
    else ok ((hdr + sh_offset m target + st_value m symbol) % 2 ^ 32)
