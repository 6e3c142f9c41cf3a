-- ===== src/Elf/Tests.antt =====
-- The theorems about the ELF loader of src/programs/elf/elf.c at small tables and files.
use dek_os.Base.{
  ℕ, ◌+◌, ◌≡◌, ◌≢◌, refl, inr, arith, Mem, load32, ◌==◌, ◌||◌, if◌then◌else◌, [], ◌∷◌, ◌++◌, ok,
}
use dek_os.Memory.Heap.{Heap}
use dek_os.Memory.Text.Scan.{IsStr}
use dek_os.Elf.{
  Externs, elf_error, elf_section, elf_get_symbol_value, elf_lookup_symbol,
  elf_register_extern_symbol,
}
use dek_os.Elf.Symbols.{Table, find, IsName, IsTable}
use dek_os.Elf.Register.{room, lookup-register}
use dek_os.Elf.Relocate.{r_type, ref_of, elf_do_relocation}
use dek_os.Elf.Relocated.{Relocated, HasValue, symbol, do_relocation-Relocated}

-- One symbol "a" of address 0x99 in a table for two at 0x400; the names stand from 0x500 on.
abbrev names : Mem
names a =
    if a == 0x401
    then 5
    else if a == 0x404
    then 0x99
    else if a == 0x500
    then b'a'
    else if a == 0x510
    then b'b'
    else 0

abbrev heap : Heap
heap = record {
  bytes = names;
  map = λ _. 0;
  raw = 0x1000;
  heap_size = 256;
  mem_size = 0x2000;
  heap_start = 0x1000;
  heap_end = 0x1100;
  heap_map_start = 0x1100;
  heap_map_end = 0x1102;
}

abbrev externs : Externs
externs = record { extern_symbols = 0x400; extern_symbol_count = 1; extern_symbol_capacity = 2 }

abbrev one : Table
one = (b'a' ∷ [], 0x99) ∷ []

one-IsTable : IsTable names externs one
unfolding load32
one-IsTable = record {
  not_null = omega arith;
  counts = refl;
  fits = omega arith;
  entries = (
    record { is_text = omega arith; short = omega arith; outside = inr (omega arith) },
    refl,
    tt,
  );
}

b-IsName : IsName names 0x400 0x410 0x510 (b'b' ∷ [])
b-IsName = record { is_text = omega arith; short = omega arith; outside = inr (omega arith) }

lookup-register_example :
    (x' : Externs) × (h' : Heap) × (elf_register_extern_symbol 0x510 0x77 externs heap
      ≡ ok (x', h'))
    × IsTable h'.bytes x' (one ++ (b'b' ∷ [], 0x77) ∷ [])
    × ((at : ℕ)
        → IsStr (λ k. h'.bytes (at + k)) (b'b' ∷ [])
        → elf_lookup_symbol h'.bytes x' at ≡ ok (find (b'b' ∷ []) (one ++ (b'b' ∷ [], 0x77) ∷ [])))
lookup-register_example =
    lookup-register 0x510 0x77 externs heap one (b'b' ∷ []) (b'b' ∷ []) one-IsTable
      (room (omega arith)) b-IsName (omega arith) (omega arith)

-- A file at 0x1000 with four sections: 1 is relocated, 2 has the relocations, and 3 the symbols. The
-- relocation at 0x1200 adds symbol 1, absolute and of the value 0x42, to the word at 0x1104.
abbrev object : Mem
object a =
    if a == 0x1020
    then 52
    else if a == 0x1030
    then 4
    else if a == 0x106D
    then 1
    else if a == 0x109C
    then 3
    else if a == 0x10A0
    then 1
    else if a == 0x10BD
    then 3
    else if a == 0x10C0
    then 32
    else if a == 0x10D0
    then 16
    else if (a == 0x1200)
    then 4
    else if (a == 0x1204) || (a == 0x1205)
    then 1
    else if a == 0x1314
    then 0x42
    else if a == 0x131E
    then 0xF1
    else if a == 0x131F
    then 0xFF
    else 0

object-HasValue : HasValue externs 0x1000 0x1200 0x1084 object 0x42
unfolding elf_get_symbol_value elf_section load32
object-HasValue = symbol (omega arith) refl

do_relocation-Relocated_example :
    (r : ℕ × Mem) × (elf_do_relocation externs 0x1000 0x1200 0x1084 object ≡ ok r)
    × (0x42 ≢ elf_error
        → Relocated (r_type object 0x1200) (ref_of 0x1000 0x1200 0x1084 object) 0x42 object r)
    × (0x42 ≡ elf_error → r ≡ (elf_error, object))
unfolding elf_section load32
do_relocation-Relocated_example =
    do_relocation-Relocated externs 0x1000 0x1200 0x1084 object 0x42 (omega arith) object-HasValue
