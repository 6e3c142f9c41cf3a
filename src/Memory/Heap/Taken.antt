-- ===== src/Memory/Heap/Taken.antt =====
-- What `kmalloc` of src/memory/alloc.c changes, by the bits of the map and the bytes of the memory.
use dek_os.Base.{
  ℕ, ◌+◌, ◌*◌, ◌/◌, ◌^◌, ◌≤◌, ◌<◌, ◌≡◌, refl, ◌⊎◌, inl, inr, true, arith, if◌then◌else◌, Run, ok,
  panicked, ◌&&◌, leb, ltb, load32, load32-store32, store32-outside,
}
use dek_os.Base.Bitmap.{bit}
use dek_os.Memory.Heap.{Heap, total_bits, kmalloc}
use dek_os.Memory.Heap.Layout.{IsHeap}
use dek_os.Memory.Heap.Search.{IsFreeRun}
use dek_os.Memory.Heap.Map.{blocks, bit-marked}
use dek_os.Memory.Heap.Malloc.{Kmalloced, Fits, holding, kmalloc-Kmalloced}

-- The `n` blocks from `f` on have been taken: their bits are set, the first word of the first block is
-- the size, and every other bit and byte is as it was.
pub record Takes (h h' : Heap) (f n size : ℕ) : Type 0 where
  pub marks : (k : ℕ) → bit 8 h'.map k ≡ (if leb f k && ltb k (f + n) then true else bit 8 h.map k)
  pub header : load32 h'.bytes (h.raw + f * 16) ≡ size
  pub bytes : (a : ℕ) → (a < h.raw + f * 16) ⊎ (h.raw + f * 16 + 4 ≤ a) → h'.bytes a ≡ h.bytes a
  pub place : h'.raw ≡ h.raw

-- What a `kmalloc` that needs `n` blocks does, by the bits of the map.
abbrev pub Allocates : Heap → ℕ → ℕ → Run (ℕ × Heap) → Type 0
Allocates h n size r =
    (r ≡ panicked) × ((k : ℕ) → ¬ IsFreeRun h.map (total_bits h) k n)
    ⊎ ((f : ℕ) × (h' : Heap) × IsFreeRun h.map (total_bits h) f n
        × ((k : ℕ) → k < f → ¬ IsFreeRun h.map (total_bits h) k n)
        × (r ≡ ok (h.raw + f * 16 + 16, h'))
        × Takes h h' f n size)

holding-Takes :
    (f n size : ℕ) (h : Heap)
    → IsHeap h
    → f + n ≤ total_bits h
    → size < 2 ^ 32
    → Takes h (holding h f n size) f n size
holding-Takes f n size h v fits small = record {
  marks = λ k. bit-marked h f n k v fits;
  header = load32-store32 h.bytes (h.raw + f * 16) size small;
  bytes = λ a away. store32-outside h.bytes (h.raw + f * 16) size a away;
  place = refl;
}

-- `kmalloc` of a size that could fit an empty heap returns or panics: it panics exactly if no run of
-- free blocks is long enough for the header of 16 bytes and the bytes; otherwise it takes the first such
-- run and returns the address 16 bytes behind its start. The bits of the run are then set, the size
-- stands in the header, and every other bit of the map and byte of the memory is as it was.
pub kmalloc-Allocates :
    (size : ℕ) (h : Heap)
    → IsHeap h
    → Fits h size
    → Allocates h ((size + 16 + 15) / 16) size (kmalloc size h)
kmalloc-Allocates size h v fits = described (kmalloc-Kmalloced size h v fits)
  where
    described :
        Kmalloced h (blocks (size + 16)) size (kmalloc size h)
        → Allocates h ((size + 16 + 15) / 16) size (kmalloc size h)
    described (inl stops) = inl stops
    described (inr (f, run, first, e)) = inr (
      f,
      holding h f (blocks (size + 16)) size,
      run,
      first,
      e,
      holding-Takes f (blocks (size + 16)) size h v run.exist (omega (arith, fits.no_wrap)),
    )
