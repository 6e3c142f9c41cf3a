-- ===== src/Elf/Entry.antt =====
-- An entry written behind the others of the table of external symbols, src/programs/elf/elf.c.
use dek_os.Base.{
  ℕ, ◌+◌, ◌*◌, ◌%◌, ◌^◌, ◌<◌, ◌≡◌, refl, ◌∙◌, inl, inr, List, [], ◌∷◌, ◌++◌, arith, Mem, load32,
  store32, load32-store32_wrap, load32-store32_apart, store32-outside,
}
use dek_os.Memory.Text.Scan.{length}
use dek_os.Memory.Heap.{Heap}
use dek_os.Elf.{Externs, add_entry}
use dek_os.Elf.Symbols.{
  Table, Outside, IsName, table_end, IsTable, Agree, IsName-Agree, HasEntries-Agree,
  HasEntries-snoc,
}

-- The memory after the entry has been written.
abbrev with_entry : Mem → ℕ → ℕ → ℕ → Mem
with_entry m at name addr = store32 (store32 m at name) (at + 4) addr

with_entry-Agree : (m : Mem) (at name addr : ℕ) → Agree m (with_entry m at name addr) at (at + 8)
with_entry-Agree m at name addr a (inl h) =
    store32-outside (store32 m at name) (at + 4) addr a (inl (omega arith))
    ∙ store32-outside m at name a (inl h)
with_entry-Agree m at name addr a (inr h) =
    store32-outside (store32 m at name) (at + 4) addr a (inr (omega arith))
    ∙ store32-outside m at name a (inr (omega arith))

with_entry-name :
    (m : Mem) (at name addr : ℕ) → name < 2 ^ 32 → load32 (with_entry m at name addr) at ≡ name
with_entry-name m at name addr h =
    let low : name % 2 ^ 32 ≡ name = omega arith in
    load32-store32_apart (store32 m at name) (at + 4) at addr (inr (omega arith))
    ∙ load32-store32_wrap m at name
    ∙ low

with_entry-addr :
    (m : Mem) (at name addr : ℕ)
    → addr < 2 ^ 32
    → load32 (with_entry m at name addr) (at + 4) ≡ addr
with_entry-addr m at name addr h =
    let low : addr % 2 ^ 32 ≡ addr = omega arith in
    load32-store32_wrap (store32 m at name) (at + 4) addr ∙ low

length-snoc : (ts : Table) (t : List ℕ × ℕ) → length (ts ++ t ∷ []) ≡ length ts + 1
length-snoc [] t = refl
length-snoc (u ∷ ts) t = omega (arith, length-snoc ts t)

-- An entry behind the others, where there is room for it.
pub add_entry-IsTable :
    (name addr : ℕ) (x : Externs) (h : Heap) (ts : Table) (text : List ℕ)
    → IsTable h.bytes x ts
    → x.extern_symbol_count < x.extern_symbol_capacity
    → name < 2 ^ 32
    → addr < 2 ^ 32
    → IsName h.bytes x.extern_symbols (table_end x) name text
    → let (x', h') = add_entry name addr x h in IsTable h'.bytes x' (ts ++ (text, addr) ∷ [])
unfolding add_entry
add_entry-IsTable name addr x h ts text v room low low' n =
    let at = x.extern_symbols + x.extern_symbol_count * 8 in
    let m' = with_entry h.bytes at name addr in
    let kept =
      HasEntries-Agree h.bytes m' x.extern_symbols (table_end x) at ts 0
        (with_entry-Agree h.bytes at name addr) (omega arith) (omega arith)
        (omega (arith, v.counts)) v.entries in
    let place : x.extern_symbols + (0 + length ts) * 8 ≡ at = omega (arith, v.counts) in
    let named =
      IsName-Agree h.bytes m' at (at + 8) x.extern_symbols (table_end x) name text
        (with_entry-Agree h.bytes at name addr) (within n.outside) n.outside n in
    record {
      not_null = v.not_null;
      counts = length-snoc ts (text, addr) ∙ omega (arith, v.counts);
      fits = omega arith;
      entries =
          HasEntries-snoc m' x.extern_symbols (table_end x) x.extern_symbols ts 0 text addr kept
            (rw (place, with_entry-name h.bytes at name addr low) named)
            (rw place (with_entry-addr h.bytes at name addr low'));
    }
  where
    within :
        Outside x.extern_symbols (table_end x) name (length text + 1)
        → Outside
            (x.extern_symbols + x.extern_symbol_count * 8)
            (x.extern_symbols + x.extern_symbol_count * 8 + 8)
            name
            (length text + 1)
    within (inl b) = inl (omega arith)
    within (inr b) = inr (omega arith)
