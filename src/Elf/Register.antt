-- ===== src/Elf/Register.antt =====
-- `elfRegisterExternSymbol` of src/programs/elf/elf.c adds a symbol to the list.
use native.Mathlib.Nat.{add-zero}
use dek_os.Base.{
  ℕ, ◌+◌, ◌*◌, ◌-◌, ◌%◌, ◌^◌, ◌≤◌, ◌<◌, ◌≡◌, ◌≢◌, refl, ap, sym, ◌∙◌, ◌⊎◌, inl, inr, true, false,
  ◌||◌, List, [], ◌∷◌, ◌++◌, arith, Mem, null, load32, store32, store32-outside, ltb, ◌==◌,
  Bool-cases, ok, ok-injective, panicked≢ok,
}
use dek_os.Memory.Block.{memcpy, memcpy_lem, memcpy_outside}
use dek_os.Memory.Text.Scan.{length, IsStr}
use dek_os.Memory.Heap.{Heap, Region, kmalloc, kfree, u_map}
use dek_os.Memory.Heap.Layout.{IsHeap}
use dek_os.Memory.Heap.Map.{blocks}
use dek_os.Memory.Heap.Malloc.{Kmalloced, Fits, holding, kmalloc-Kmalloced}
use dek_os.Elf.{
  Externs, elf_lookup_symbol, first_table, grow_table, add_entry, elf_register_extern_symbol,
}
use dek_os.Elf.Symbols.{
  Table, find, Outside, IsName, HasEntries, table_end, IsTable, lookup_symbol-find, Agree,
  IsName-Agree,
}
use dek_os.Elf.Entry.{add_entry-IsTable}

-- Words and names, moved with their table.
load32-moved :
    (m m' : Mem) (p p' : ℕ)
    → ((b : ℕ) → b < 4 → m' (p' + b) ≡ m (p + b))
    → load32 m' p' ≡ load32 m p
unfolding load32
load32-moved m m' p p' h =
    let here : m' p' ≡ m p = ap m' (sym (add-zero p')) ∙ h 0 (omega arith) ∙ ap m (add-zero p) in
    omega (arith, here, h 1 (omega arith), h 2 (omega arith), h 3 (omega arith))

HasEntries-moved :
    (m m' : Mem) (lo hi lo' hi' base base' : ℕ) (ts : Table) (i n : ℕ)
    → Agree m m' lo hi
    → (lo ≤ lo') × (hi' ≤ hi)
    → ((k : ℕ) → k < n * 8 → m' (base' + k) ≡ m (base + k))
    → i + length ts ≤ n
    → HasEntries m lo hi base i ts
    → HasEntries m' lo' hi' base' i ts
HasEntries-moved m m' lo hi lo' hi' base base' [] i n g w copied fits v = tt
HasEntries-moved m m' lo hi lo' hi' base base' ((text, addr) ∷ ts) i n g w copied fits
      (here, there, later) =
    let name = load32-moved m m' (base + i * 8) (base' + i * 8) (λ b h.
      let e : base' + i * 8 + b ≡ base' + (i * 8 + b) = omega arith in
      let e' : base + i * 8 + b ≡ base + (i * 8 + b) = omega arith in
      rw (e, e') (copied (i * 8 + b) (omega arith))) in
    let value = load32-moved m m' (base + i * 8 + 4) (base' + i * 8 + 4) (λ b h.
      let e : base' + i * 8 + 4 + b ≡ base' + (i * 8 + 4 + b) = omega arith in
      let e' : base + i * 8 + 4 + b ≡ base + (i * 8 + 4 + b) = omega arith in
      rw (e, e') (copied (i * 8 + 4 + b) (omega arith))) in
    (
      rw name (record {
        is_text =
            (IsName-Agree m m' lo hi lo hi (load32 m (base + i * 8)) text g here.outside
              here.outside here).is_text;
        short = here.short;
        outside = within here.outside;
      }),
      value ∙ there,
      HasEntries-moved m m' lo hi lo' hi' base base' ts (i + 1) n g w copied (omega arith) later,
    )
  where
    within :
        Outside lo hi (load32 m (base + i * 8)) (length text + 1)
        → Outside lo' hi' (load32 m (base + i * 8)) (length text + 1)
    within (inl b) = inl (omega arith)
    within (inr b) = inr (omega arith)

-- The symbol can be added: there is room in the table, or the heap gives a block for twice as many
-- entries, clear of the table and of all names.
pub data HasRoom (x : Externs) (h : Heap) (ts : Table) (name : ℕ) (text : List ℕ) : Type 0 where
  room : x.extern_symbol_count < x.extern_symbol_capacity → HasRoom x h ts name text
  grows :
      (p : ℕ) (h' : Heap)
      → x.extern_symbol_capacity ≤ x.extern_symbol_count
      → 0 < x.extern_symbol_capacity
      → kmalloc (x.extern_symbol_capacity * 2 * 8) h ≡ ok (p, h')
      → IsHeap h
      → Fits h (x.extern_symbol_capacity * 2 * 8)
      → Outside
          (p - 16)
          (p + x.extern_symbol_capacity * 2 * 8)
          x.extern_symbols
          (x.extern_symbol_count * 8)
      → HasEntries h.bytes (p - 16) (p + x.extern_symbol_capacity * 2 * 8) x.extern_symbols 0 ts
      → IsName h.bytes (p - 16) (p + x.extern_symbol_capacity * 2 * 8) name text
      → HasRoom x h ts name text

-- `kmalloc` changes the header of its block only.
kmalloc-bytes :
    (size : ℕ) (h h' : Heap) (p : ℕ)
    → IsHeap h
    → Fits h size
    → kmalloc size h ≡ ok (p, h')
    → (16 ≤ p) × (h'.bytes ≡ store32 h.bytes (p - 16) size)
kmalloc-bytes size h h' p v fits e = from (kmalloc-Kmalloced size h v fits)
  where
    from :
        Kmalloced h (blocks (size + 16)) size (kmalloc size h)
        → (16 ≤ p) × (h'.bytes ≡ store32 h.bytes (p - 16) size)
    from (inl (stops, _)) = absurd (panicked≢ok (sym stops ∙ e))
    from (inr (f, _, _, r)) =
        let both = ok-injective (sym e ∙ r) in
        let at : p ≡ h.raw + f * 16 + 16 = ap (λ (x : ℕ × Heap). x.0) both in
        let heap : h' ≡ holding h f (blocks (size + 16)) size = ap (λ (x : ℕ × Heap). x.1) both in
        let start : p - 16 ≡ h.raw + f * 16 = omega (arith, at) in
        (omega (arith, at), rw start (ap (λ (g : Heap). g.bytes) heap))

u_map-bytes : (r : Region) (h : Heap) → (u_map r h).bytes ≡ h.bytes
unfolding u_map
u_map-bytes r h = elim (Bool-cases ((r.ptr == null) || (r.size == 0))) [
  | inl none_there ↦ rw none_there refl
  | inr some_there ↦ rw some_there refl
]

kfree_lem : (p : ℕ) (h : Heap) → p ≢ null → (g : Heap) × (kfree p h ≡ ok g) × (g.bytes ≡ h.bytes)
unfolding kfree
kfree_lem p h nonzero =
    let at : (p == null) ≡ false = ground arith in
    let region : Region = record {
      ptr = (p + 2 ^ 32 - 16) % 2 ^ 32;
      size = (load32 h.bytes ((p + 2 ^ 32 - 16) % 2 ^ 32) + 16) % 2 ^ 32;
    } in
    (u_map region h, rw at refl, u_map-bytes region h)

-- The new block is the header and `size` bytes, and is filled with the first `n` bytes of the table.
module _ (h : Heap) (m : Mem) (p size base n : ℕ) (header : 16 ≤ p)
    (bytes : m ≡ store32 h.bytes (p - 16) size) (room : n ≤ size)
    (apart : Outside (p - 16) (p + size) base n) where
  header-Agree : Agree h.bytes m (p - 16) (p + size)
  header-Agree a (inl o) =
      ap (λ (f : Mem). f a) bytes ∙ store32-outside h.bytes (p - 16) size a (inl o)
  header-Agree a (inr o) =
      ap (λ (f : Mem). f a) bytes ∙ store32-outside h.bytes (p - 16) size a (inr (omega arith))

  copy-Agree : Agree h.bytes (memcpy m p base n) (p - 16) (p + size)
  copy-Agree a (inl o) = memcpy_outside n p base m a (ground arith) ∙ header-Agree a (inl o)
  copy-Agree a (inr o) = memcpy_outside n p base m a (ground arith) ∙ header-Agree a (inr o)

  copy-copied : (k : ℕ) → k < n → memcpy m p base n (p + k) ≡ h.bytes (base + k)
  copy-copied k lt = memcpy_lem n p base m k (order apart) lt ∙ header-Agree (base + k) (away apart)
    where
      order : Outside (p - 16) (p + size) base n → (p ≤ base) ⊎ (base + n ≤ p)
      order (inl o) = inr (omega arith)
      order (inr o) = inl (omega arith)

      away : Outside (p - 16) (p + size) base n → (base + k < p - 16) ⊎ (p + size ≤ base + k)
      away (inl o) = inl (omega arith)
      away (inr o) = inr (omega arith)

-- The table in its new place.
grow_table-IsTable :
    (x : Externs) (h : Heap) (ts : Table) (name : ℕ) (text : List ℕ)
    → IsTable h.bytes x ts
    → HasRoom x h ts name text
    → IsName h.bytes x.extern_symbols (table_end x) name text
    → (x' : Externs) × (h' : Heap) × (grow_table x h ≡ ok (true, x', h'))
      × IsTable h'.bytes x' ts
      × (x'.extern_symbol_count < x'.extern_symbol_capacity)
      × IsName h'.bytes x'.extern_symbols (table_end x') name text
unfolding grow_table
grow_table-IsTable x h ts name text v (room r) n =
    let more : ltb x.extern_symbol_count x.extern_symbol_capacity ≡ true = ground arith in
    (x, h, rw more refl, v, r, n)
grow_table-IsTable x h ts name text v (grows p h' full positive got heap fits apart names new) n =
    let base = x.extern_symbols in
    let count = x.extern_symbol_count in
    let size = x.extern_symbol_capacity * 2 * 8 in
    let (header, bytes) = kmalloc-bytes size h h' p heap fits got in
    let m = memcpy h'.bytes p base (count * 8) in
    let (g, freed, same) = kfree_lem base (record h' { bytes = m }) v.not_null in
    let no_room : ltb count x.extern_symbol_capacity ≡ false = ground arith in
    let not_null : (p == null) ≡ false = ground arith in
    let agree =
      copy-Agree h h'.bytes p size base (count * 8) header bytes (omega (arith, v.fits)) apart in
    (
      record x { extern_symbols = p; extern_symbol_capacity = x.extern_symbol_capacity * 2 },
      g,
      rw (no_room, got, not_null, freed) refl,
      rw same (record {
        not_null = omega (arith, header);
        counts = v.counts;
        fits = omega (arith, v.fits);
        entries =
            HasEntries-moved h.bytes m (p - 16) (p + size) p (p + size) base p ts 0 count agree
              (omega arith, omega arith)
              (copy-copied h h'.bytes p size base (count * 8) header bytes (omega (arith, v.fits))
                apart)
              (omega (arith, v.counts)) names;
      }),
      omega (arith, v.fits),
      rw same (record {
        is_text =
            (IsName-Agree h.bytes m (p - 16) (p + size) (p - 16) (p + size) name text agree
              new.outside new.outside new).is_text;
        short = new.short;
        outside = within new.outside;
      }),
    )
  where
    within :
        Outside (p - 16) (p + x.extern_symbol_capacity * 2 * 8) name (length text + 1)
        → Outside p (p + x.extern_symbol_capacity * 2 * 8) name (length text + 1)
    within (inl b) = inl (omega arith)
    within (inr b) = inr b

-- With a table there already, `elfRegisterExternSymbol` adds the symbol behind the others, taking a table
-- of twice the size when the old one is full, and `elfLookupSymbol` then gives, for a name, the address of
-- the first symbol of the longer list that has the name.
pub lookup-register :
    (name addr : ℕ) (x : Externs) (h : Heap) (ts : Table) (text q : List ℕ)
    → IsTable h.bytes x ts
    → HasRoom x h ts name text
    → IsName h.bytes x.extern_symbols (table_end x) name text
    → name < 2 ^ 32
    → addr < 2 ^ 32
    → (x' : Externs) × (h' : Heap) × (elf_register_extern_symbol name addr x h ≡ ok (x', h'))
      × IsTable h'.bytes x' (ts ++ (text, addr) ∷ [])
      × ((at : ℕ)
          → IsStr (λ k. h'.bytes (at + k)) q
          → elf_lookup_symbol h'.bytes x' at ≡ ok (find q (ts ++ (text, addr) ∷ [])))
unfolding elf_register_extern_symbol first_table
lookup-register name addr x h ts text q v has n low low' =
    let there : (x.extern_symbols == null) ≡ false = ground (arith, v.not_null) in
    let (x', h', grown, v', free, n') = grow_table-IsTable x h ts name text v has n in
    let (x'', h'') = add_entry name addr x' h' in
    let table = add_entry-IsTable name addr x' h' ts text v' free low low' n' in
    (
      x'',
      h'',
      rw (there, grown) refl,
      table,
      λ at w. lookup_symbol-find h''.bytes x'' (ts ++ (text, addr) ∷ []) at q table w,
    )
