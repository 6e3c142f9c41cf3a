-- ===== src/Arch/Pmm/Count.antt =====
-- `used_frames` of src/arch/x86/pmm.c is the number of marked frames, as long as only frames that
-- are taken are freed.
use dek_os.Base.{
  ℕ, zero, suc, ◌+◌, ◌/◌, ◌^◌, ◌≤◌, ◌<◌, ◌≡◌, refl, inl, inr, true, false, arith, ltb,
  if◌then◌else◌, Mem,
}
use dek_os.Base.Bitmap.{bit, mark, unmark, bit-mark, bit-unmark}
use dek_os.Arch.Pmm.{Pmm, alloc_physical_page, free_physical_page}
use dek_os.Arch.Pmm.Alloc.{taken, taking, Scanned, alloc_physical_page-Scanned}

-- the marked frames below `n`
unfoldable pub count : Mem → ℕ → ℕ
count m zero = 0
count m (suc n) = count m n + (if bit 32 m n then 1 else 0)

count-le : (m : Mem) (n : ℕ) → count m n ≤ n
unfolding count
count-le m zero = omega arith
count-le m (suc n) = ground (arith, count-le m n)

count-mark :
    (m : Mem) (i n : ℕ)
    → bit 32 m i ≡ false
    → count (mark 32 m i) n ≡ count m n + (if ltb i n then 1 else 0)
unfolding count
count-mark m i zero h = ground arith
count-mark m i (suc n) h = ground (arith, count-mark m i n h, bit-mark 32 (omega arith) m i n)

count-unmark :
    (m : Mem) (i n : ℕ)
    → bit 32 m i ≡ true
    → count (unmark 32 m i) n + (if ltb i n then 1 else 0) ≡ count m n
unfolding count
count-unmark m i zero h = ground arith
count-unmark m i (suc n) h = ground (arith, count-unmark m i n h, bit-unmark 32 (omega arith) m i n)

-- The number of frames fits the address space, and the count is right.
pub record IsCounted (p : Pmm) : Type 0 where
  pub small : p.total_frames ≤ 2 ^ 20
  pub counted : p.used_frames ≡ count p.bitmap p.total_frames

taking-IsCounted :
    (p : Pmm) (f : ℕ)
    → f < p.total_frames
    → taken p f ≡ false
    → IsCounted p
    → IsCounted (taking f p)
taking-IsCounted p f hf free v =
    ground (arith, count-mark p.bitmap f p.total_frames free, count-le p.bitmap p.total_frames)

-- `alloc_physical_page` keeps the count of frames right.
pub alloc_physical_page-IsCounted : (p : Pmm) → IsCounted p → IsCounted (alloc_physical_page p).1
alloc_physical_page-IsCounted p v = after (alloc_physical_page-Scanned p)
  where
    after : {r : ℕ × Pmm} → Scanned p 0 p.total_frames r → IsCounted r.1
    after (inl (e, _)) = rw e v
    after (inr (f, _, hf, free, _, e)) = rw e (taking-IsCounted p f hf free v)

-- `free_physical_page` keeps the count of frames right if the page's frame exists and is taken.
pub free_physical_page-IsCounted :
    (phys : ℕ) (p : Pmm)
    → IsCounted p
    → phys / 4096 < p.total_frames
    → taken p (phys / 4096) ≡ true
    → IsCounted (free_physical_page phys p)
unfolding free_physical_page
free_physical_page-IsCounted phys p v h busy = ground (
  arith,
  count-unmark p.bitmap (phys / 4096) p.total_frames busy,
  count-le p.bitmap p.total_frames,
)

count-unmark_free : (m : Mem) (i n : ℕ) → bit 32 m i ≡ false → count (unmark 32 m i) n ≡ count m n
unfolding count
count-unmark_free m i zero h = refl
count-unmark_free m i (suc n) h =
    ground (arith, count-unmark_free m i n h, bit-unmark 32 (omega arith) m i n)

-- Where the count is right, freeing a page whose frame is not taken makes it wrong.
pub double_free-not-IsCounted :
    (phys : ℕ) (p : Pmm)
    → IsCounted p
    → taken p (phys / 4096) ≡ false
    → ¬ IsCounted (free_physical_page phys p)
unfolding free_physical_page
double_free-not-IsCounted phys p v free w = omega (
  arith,
  count-unmark_free p.bitmap (phys / 4096) p.total_frames free,
  count-le p.bitmap p.total_frames,
  w.counted,
)
