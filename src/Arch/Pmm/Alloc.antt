-- ===== src/Arch/Pmm/Alloc.antt =====
-- What `alloc_physical_page` of src/arch/x86/pmm.c returns, and which frames `pmm_init` reserves.
use dek_os.Base.{
  ℕ, zero, suc, ◌+◌, ◌*◌, ◌%◌, ◌/◌, ◌^◌, ◌≤◌, ◌<◌, ◌≡◌, refl, ◌⊎◌, inl, inr, true, false, arith,
  leb, ltb, ◌&&◌, Bool, Bool-cases, if◌then◌else◌, ◌==◌,
}
use dek_os.Base.Bitmap.{bit, mark, bit-mark}
use dek_os.Base.Bits.{is_set_empty}
use dek_os.Arch.Pmm.{Pmm, no_page, reserve, pmm_init, alloc_loop, alloc_physical_page}

abbrev pub taken : Pmm → ℕ → Bool
taken p i = bit 32 p.bitmap i

-- The state after frame `i` has been handed out.
abbrev pub taking : ℕ → Pmm → Pmm
taking i p = record p { bitmap = mark 32 p.bitmap i; used_frames = (p.used_frames + 1) % 2 ^ 32 }

-- The scan of frames from `i` to `stop` finds them all taken, or takes the first free one.
abbrev pub Scanned : Pmm → ℕ → ℕ → ℕ × Pmm → Type 0
Scanned p i stop r =
    (r ≡ (no_page, p)) × ((j : ℕ) → i ≤ j → j < stop → taken p j ≡ true)
    ⊎ ((f : ℕ) × (i ≤ f)
        × (f < stop)
        × (taken p f ≡ false)
        × ((j : ℕ) → i ≤ j → j < f → taken p j ≡ true)
        × (r ≡ (f * 4096 % 2 ^ 32, taking f p)))

Scanned-skip :
    (p : Pmm) (i stop : ℕ) (r : ℕ × Pmm)
    → taken p i ≡ true
    → Scanned p (i + 1) stop r
    → Scanned p i stop r
Scanned-skip p i stop r busy (inl (e, all)) = inl (e, λ j lo hi. grind (arith, all))
Scanned-skip p i stop r busy (inr (f, lo, hi, free, all, e)) =
    inr (f, omega arith, hi, free, (λ j a b. grind (arith, all)), e)

alloc_loop-Scanned : (n i stop : ℕ) (p : Pmm) → i + n ≡ stop → Scanned p i stop (alloc_loop n i p)
unfolding alloc_loop
alloc_loop-Scanned zero i stop p e = inl (refl, λ j lo hi. absurd (omega arith))
alloc_loop-Scanned (suc n) i stop p e = elim (Bool-cases (taken p i)) [
  | inl busy ↦
      rw busy (Scanned-skip p i stop _ busy (alloc_loop-Scanned n (i + 1) stop p (omega arith)))
  | inr free ↦
      rw free (inr (i, omega arith, omega arith, free, (λ j a b. absurd (omega arith)), refl))
]

-- `alloc_physical_page` returns `0xFFFFFFFF` and changes nothing exactly when every frame is taken;
-- otherwise it returns the address of the lowest free frame, marks that frame and counts it.
pub alloc_physical_page-Scanned : (p : Pmm) → Scanned p 0 p.total_frames (alloc_physical_page p)
unfolding alloc_physical_page
alloc_physical_page-Scanned p = alloc_loop-Scanned p.total_frames 0 p.total_frames p (omega arith)

pub taken-taking : (p : Pmm) (f j : ℕ) → taken (taking f p) j ≡ (if f == j then true else taken p j)
taken-taking p f j = bit-mark 32 (omega arith) p.bitmap f j

taken-reserve :
    (n i : ℕ) (p : Pmm) (j : ℕ)
    → taken (reserve n i p) j ≡ (if leb i j && ltb j (i + n) then true else taken p j)
unfolding reserve
taken-reserve zero i p j = ground arith
taken-reserve (suc n) i p j =
    ground (arith, taken-reserve n (i + 1) (taking i p) j, taken-taking p i j)

total_frames-reserve : (n i : ℕ) (p : Pmm) → (reserve n i p).total_frames ≡ p.total_frames
unfolding reserve
total_frames-reserve zero i p = refl
total_frames-reserve (suc n) i p = total_frames-reserve n (i + 1) (taking i p)

-- After `pmm_init`, of the frames that the machine has, exactly the first 256 (one megabyte) are
-- taken, whatever the bitmap held before.
pub taken-pmm_init :
    (kb : ℕ) (p : Pmm) (j : ℕ)
    → j < (pmm_init kb p).total_frames
    → taken (pmm_init kb p) j ≡ ltb j 256
unfolding pmm_init bit
taken-pmm_init kb p j h =
    rw (taken-reserve 256 0 cleared j) (ground (arith, is_set_empty (j % 32), known))
  where
    cleared : Pmm
    cleared = record p {
      total_frames = kb * 1024 % 2 ^ 32 / 4096;
      bitmap =
          λ i. if ltb i ((kb * 1024 % 2 ^ 32 / 4096 + 31) % 2 ^ 32 / 32) then 0 else p.bitmap i;
    }

    known : j < kb * 1024 % 2 ^ 32 / 4096
    known = rw (total_frames-reserve 256 0 cleared) at h
