-- ===== src/Arch/Pmm/Free.antt =====
-- `free_physical_page` of src/arch/x86/pmm.c against `alloc_physical_page`.
use dek_os.Base.{
  ℕ, ◌*◌, ◌/◌, ◌%◌, ◌^◌, ◌≤◌, ◌<◌, ◌≡◌, ◌≢◌, ap, inl, inr, false, arith, if◌then◌else◌, ◌==◌,
}
use dek_os.Base.Bitmap.{bit-unmark}
use dek_os.Arch.Pmm.{Pmm, no_page, alloc_physical_page, free_physical_page}
use dek_os.Arch.Pmm.Alloc.{taken, taking, Scanned, alloc_physical_page-Scanned, taken-taking}

-- `free_physical_page` frees the frame that the address lies in, and no other.
pub taken-free_physical_page :
    (phys : ℕ) (p : Pmm) (j : ℕ)
    → taken (free_physical_page phys p) j ≡ (if phys / 4096 == j then false else taken p j)
unfolding free_physical_page
taken-free_physical_page phys p j = bit-unmark 32 (omega arith) p.bitmap (phys / 4096) j

-- The state after frame `f` was handed out and given back.
restored :
    (p : Pmm) (f j : ℕ)
    → f < 2 ^ 20
    → p.used_frames < 2 ^ 32
    → taken p f ≡ false
    → let p' = free_physical_page (f * 4096 % 2 ^ 32) (taking f p) in
      (taken p' j ≡ taken p j) × (p'.used_frames ≡ p.used_frames)
unfolding free_physical_page
restored p f j small fits free =
    let here : f * 4096 % 2 ^ 32 / 4096 ≡ f = omega arith in
    (
      ground (
        arith,
        here,
        taken-free_physical_page (f * 4096 % 2 ^ 32) (taking f p) j,
        taken-taking p f j,
      ),
      omega arith,
    )

-- With at most 2 ^ 20 frames, a page that has been allocated and is given back leaves every frame as it
-- was, and the count too.
pub free-alloc_physical_page :
    (p : Pmm) (j : ℕ)
    → p.total_frames ≤ 2 ^ 20
    → p.used_frames < 2 ^ 32
    → (alloc_physical_page p).0 ≢ no_page
    → let (page, p') = alloc_physical_page p in
      (taken (free_physical_page page p') j ≡ taken p j)
      × ((free_physical_page page p').used_frames ≡ p.used_frames)
free-alloc_physical_page p j small fits found = after (alloc_physical_page-Scanned p) found
  where
    after :
        {r : ℕ × Pmm}
        → Scanned p 0 p.total_frames r
        → r.0 ≢ no_page
        → (taken (free_physical_page r.0 r.1) j ≡ taken p j)
          × ((free_physical_page r.0 r.1).used_frames ≡ p.used_frames)
    after (inl (e, _)) ne = absurd (ne (ap (λ (x : ℕ × Pmm). x.0) e))
    after (inr (f, _, hf, free, _, e)) ne = rw e (restored p f j (omega arith) fits free)
