-- ===== src/Arch/Gdt.antt =====
-- The segment descriptors of src/arch/x86/gdt.c. The table is a function from the index of an entry;
-- `lgdt`, `ltr` and the far jump that reloads the segments are left out, and so are the fields of the
-- task state segment, whose address and size are parameters.
mod Tests
use Prim.Native.Nat.{bit_or-bitwise}
use mathlib.Core.Path.{ap₂}
use dek_os.Base.{
  ℕ, zero, suc, ◌+◌, ◌-◌, ◌*◌, ◌/◌, ◌%◌, ◌^◌, ◌≤◌, ◌<◌, ◌≡◌, ◌≢◌, refl, true, ap, arith, bit_and,
  bit_or, ◌==◌, if◌then◌else◌,
}
use dek_os.Base.Bits.{and_step, or_step, and-zero, or-zero}

-- `gdtEntry_t`
pub record Entry : Type 0 where
  pub limit_low : ℕ
  pub base_low : ℕ
  pub base_middle : ℕ
  pub access : ℕ
  pub granularity : ℕ
  pub base_high : ℕ

unfoldable pub gdt_set_entry : ℕ → ℕ → ℕ → ℕ → ℕ → (ℕ → Entry) → ℕ → Entry
gdt_set_entry num base limit access gran gdt i =
    let entry : Entry = record {
      base_low = base % 2 ^ 16;
      base_middle = base / 2 ^ 16 % 2 ^ 8;
      base_high = base / 2 ^ 24 % 2 ^ 8;
      limit_low = limit % 2 ^ 16;
      granularity = bit_or (limit / 2 ^ 16 % 2 ^ 4) (bit_and gran 0xf0);
      access = access;
    } in
    if i == num then entry else gdt i

-- `gdtSetTssEntry` sets the same fields in the same way.
unfoldable pub gdt_set_tss_entry : ℕ → ℕ → ℕ → ℕ → ℕ → (ℕ → Entry) → ℕ → Entry
unfolding gdt_set_entry
gdt_set_tss_entry num base limit access gran gdt = gdt_set_entry num base limit access gran gdt

-- `tss_base` and `tss_size` are the address and the size of the task state segment.
unfoldable pub gdt_init : ℕ → ℕ → (ℕ → Entry) → ℕ → Entry
unfolding gdt_set_entry gdt_set_tss_entry
gdt_init tss_base tss_size gdt =
    let g0 = gdt_set_entry 0 0 0 0 0 gdt in
    let g1 = gdt_set_entry 1 0 0xffffffff 0x9a 0xcf g0 in
    let g2 = gdt_set_entry 2 0 0xffffffff 0x92 0xcf g1 in
    let g3 = gdt_set_entry 3 0 0xffffffff 0xfa 0xcf g2 in
    let g4 = gdt_set_entry 4 0 0xffffffff 0xf2 0xcf g3 in
    gdt_set_tss_entry 5 tss_base (tss_size - 1) 0x89 0x40 g4

-- what the processor reads from an entry: the base, the 20 bits of the limit, and the flags
abbrev pub base_of : Entry → ℕ
base_of e = e.base_low + e.base_middle * 2 ^ 16 + e.base_high * 2 ^ 24

abbrev pub limit_of : Entry → ℕ
limit_of e = e.limit_low + e.granularity % 16 * 2 ^ 16

abbrev pub flags_of : Entry → ℕ
flags_of e = e.granularity / 16

mask_high : (g : ℕ) → bit_and g 0xf0 ≡ bit_and (g / 16) 15 * 16
mask_high g = omega (
  arith,
  and_step g 0xf0,
  and_step (g / 2) 0x78,
  and_step (g / 2 / 2) 0x3c,
  and_step (g / 2 / 2 / 2) 0x1e,
  ap (λ (t : ℕ). bit_and t 15) (sixteenth g),
)
  where
    sixteenth : (g : ℕ) → g / 2 / 2 / 2 / 2 ≡ g / 16
    sixteenth g = omega arith

low_or_high : (a m : ℕ) → a < 16 → bit_or a (m * 16) ≡ m * 16 + a
low_or_high a m h =
    let half : m * 16 / 2 ≡ m * 8 = omega arith in
    let quarter : m * 8 / 2 ≡ m * 4 = omega arith in
    let eighth : m * 4 / 2 ≡ m * 2 = omega arith in
    let last : m * 2 / 2 ≡ m = omega arith in
    let none_left : a / 2 / 2 / 2 / 2 ≡ 0 = omega arith in
    omega (
      arith,
      or_step a (m * 16),
      ap (bit_or (a / 2)) half,
      or_step (a / 2) (m * 8),
      ap (bit_or (a / 2 / 2)) quarter,
      or_step (a / 2 / 2) (m * 4),
      ap (bit_or (a / 2 / 2 / 2)) eighth,
      or_step (a / 2 / 2 / 2) (m * 2),
      ap₂ bit_or none_left last,
      bit_or-bitwise 0 m,
    )

-- the low four bits, which a byte keeps
low_bits : (g : ℕ) → g < 256 → bit_and (g / 16) 15 ≡ g / 16
low_bits g h = omega (
  arith,
  and_step (g / 16) 15,
  and_step (g / 16 / 2) 7,
  and_step (g / 16 / 2 / 2) 3,
  and_step (g / 16 / 2 / 2 / 2) 1,
  ap (λ (t : ℕ). bit_and t 0) none_left,
)
  where
    none_left : g / 16 / 2 / 2 / 2 / 2 ≡ 0
    none_left = omega arith

granularity_lem : (l g : ℕ) → l < 16 → g < 256 → bit_or l (bit_and g 0xf0) ≡ g / 16 * 16 + l
granularity_lem l g small byte = rw (mask_high g, low_bits g byte) (low_or_high l (g / 16) small)

-- From an entry that `gdtSetEntry` set, the processor reads the base, the lower 20 bits of the limit, the
-- access byte, and the upper four bits of the last argument as the flags, if the base fits 32 bits and
-- the last argument a byte; and every other entry is as it was.
pub gdt_set_entry-read :
    (num base limit access gran j : ℕ) (gdt : ℕ → Entry)
    → base < 2 ^ 32
    → gran < 2 ^ 8
    → let gdt' = gdt_set_entry num base limit access gran gdt in
      (base_of (gdt' num) ≡ base)
      × (limit_of (gdt' num) ≡ limit % 2 ^ 20)
      × ((gdt' num).access ≡ access)
      × (flags_of (gdt' num) ≡ gran / 16)
      × (j ≢ num → gdt' j ≡ gdt j)
unfolding gdt_set_entry
gdt_set_entry-read num base limit access gran j gdt fits byte =
    let here : (num == num) ≡ true = ground arith in
    rw (here, granularity_lem (limit / 2 ^ 16 % 2 ^ 4) gran (omega arith) byte)
      (omega arith, omega arith, refl, omega arith, ground arith)
