-- ===== src/Memory/Heap/Malloc.antt =====
-- `kmalloc` and `kfree` of src/memory/alloc.c.
use dek_os.Base.{
  ℕ, ◌+◌, ◌-◌, ◌*◌, ◌/◌, ◌%◌, ◌^◌, ◌≤◌, ◌<◌, ◌≡◌, refl, ap, sym, ◌∙◌, ◌⊎◌, inl, inr, Bool, true,
  false, arith, Bool-cases, if◌then◌else◌, Run, ok, ◌>>=◌, panicked, ok-injective, panicked≢ok,
  ◌==◌, ◌&&◌, not, leb, store32, load32-store32,
}
use dek_os.Base.Bitmap.{bit}
use dek_os.Memory.Heap.{Heap, Region, total_bits, mark_run, m_map, u_map, kmalloc, kfree}
use dek_os.Memory.Heap.Layout.{IsHeap}
use dek_os.Memory.Heap.Search.{IsFreeRun, Searched}
use dek_os.Memory.Heap.Map.{blocks, m_map_lem, bit-u_map, bit-marked}

-- The heap after `kmalloc size` took `n` blocks from `f` on: they are marked, and the first word of
-- the first one holds the size.
abbrev pub holding : Heap → ℕ → ℕ → ℕ → Heap
holding h f n size = record h {
  map = mark_run n f 0 h.map;
  bytes = store32 h.bytes (h.raw + f * 16) size;
}

-- What a `kmalloc` that needs `n` blocks does: it panics if there is no run of so many free blocks;
-- otherwise it takes the first one, and returns the address behind the header.
abbrev pub Kmalloced : Heap → ℕ → ℕ → Run (ℕ × Heap) → Type 0
Kmalloced h n size r =
    (r ≡ panicked) × ((k : ℕ) → ¬ IsFreeRun h.map (total_bits h) k n)
    ⊎ ((f : ℕ) × IsFreeRun h.map (total_bits h) f n
        × ((k : ℕ) → k < f → ¬ IsFreeRun h.map (total_bits h) k n)
        × (r ≡ ok (h.raw + f * 16 + 16, holding h f n size)))

-- The sizes that neither wrap nor ask for more blocks than the heap has.
pub record Fits (h : Heap) (size : ℕ) : Type 0 where
  pub no_wrap : size + 31 < 2 ^ 32
  pub room : blocks (size + 16) ≤ total_bits h

-- what `kmalloc` does once `m_map` has returned
with_header : ℕ → Region × Heap → Run (ℕ × Heap)
with_header size (region, h') =
    if region.size == 0
    then panicked
    else ok ((region.ptr + 16) % 2 ^ 32, record h' { bytes = store32 h'.bytes region.ptr size })

with_header-Kmalloced :
    (size n : ℕ) (h : Heap) (r : Run (Region × Heap))
    → IsHeap h
    → 0 < n
    → Searched h n 0 r
    → Kmalloced h n size (r >>= with_header size)
unfolding with_header
with_header-Kmalloced size n h r v pos (inl (p, none_here)) =
    rw p (inl (refl, λ k. none_here k (omega arith)))
with_header-Kmalloced size n h r v pos (inr (f, _, run, first, p)) =
    let nonzero : (n * 16 == 0) ≡ false = ground arith in
    let low : (h.raw + f * 16 + 16) % 2 ^ 32 ≡ h.raw + f * 16 + 16 =
      omega (arith, v.top, run.exist) in
    rw (p, nonzero, low) (inr (f, run, (λ k. first k (omega arith)), refl))

-- `kmalloc` of a size that could fit an empty heap.
pub kmalloc-Kmalloced :
    (size : ℕ) (h : Heap)
    → IsHeap h
    → Fits h size
    → Kmalloced h (blocks (size + 16)) size (kmalloc size h)
unfolding kmalloc with_header
kmalloc-Kmalloced size h v fits =
    let e : (size + 16) % 2 ^ 32 ≡ size + 16 = omega (arith, fits.no_wrap) in
    rw e (
      with_header-Kmalloced size (blocks (size + 16)) h (m_map (size + 16) h) v (omega arith)
        (m_map_lem (size + 16) h v (omega arith) (omega (arith, fits.no_wrap)) fits.room))

-- The last block that `kmalloc size` takes is not among those that `kfree` gives back.
abbrev pub is_leaked : ℕ → ℕ → ℕ → Bool
is_leaked size f k = not (size % 16 == 0) && (k == f + size / 16 + 1)

block_of : (p raw f : ℕ) → p ≡ raw + f * 16 + 16 → (p - raw) / 16 - 1 ≡ f
block_of p raw f e = omega arith

freed : Heap → ℕ → ℕ → Heap
freed h f size =
    u_map (record { ptr = h.raw + f * 16; size = size + 16 })
      (holding h f (blocks (size + 16)) size)

kfree-holding :
    (size f : ℕ) (h : Heap)
    → IsHeap h
    → Fits h size
    → IsFreeRun h.map (total_bits h) f (blocks (size + 16))
    → kfree (h.raw + f * 16 + 16) (holding h f (blocks (size + 16)) size) ≡ ok (freed h f size)
unfolding kfree freed
kfree-holding size f h v fits run =
    let present : (h.raw + f * 16 + 16 == 0) ≡ false = ground arith in
    let header : (h.raw + f * 16 + 16 + 2 ^ 32 - 16) % 2 ^ 32 ≡ h.raw + f * 16 =
      omega (arith, v.top, run.exist) in
    let old : (size + 16) % 2 ^ 32 ≡ size + 16 = omega (arith, fits.no_wrap) in
    rw (
      present,
      header,
      load32-store32 h.bytes (h.raw + f * 16) size (omega (arith, fits.no_wrap)),
      old,
    )

bit-freed :
    (size f : ℕ) (h : Heap) (k : ℕ)
    → IsHeap h
    → IsFreeRun h.map (total_bits h) f (blocks (size + 16))
    → bit 8 (freed h f size).map k ≡ (if is_leaked size f k then true else bit 8 h.map k)
unfolding freed
bit-freed size f h k v run =
    let v' : IsHeap (holding h f (blocks (size + 16)) size) = record {
      base = v.base;
      top = v.top;
    } in
    let whole : (size + 16) / 16 ≡ size / 16 + 1 = omega arith in
    ground (
      arith,
      whole,
      bit-u_map (holding h f (blocks (size + 16)) size) f (size + 16) k v' (omega arith)
          (omega (arith, run.exist)),
      bit-marked h f (blocks (size + 16)) k v run.exist,
      run.free k,
    )

-- Of the blocks taken by `kmalloc`, for a size that could fit an empty heap, and given back at once by
-- `kfree`, all are free again if the size is a multiple of 16; otherwise the last one of them stays
-- marked. Every other block is as it was.
pub kfree-kmalloc :
    (size : ℕ) (h h' : Heap) (p : ℕ)
    → IsHeap h
    → Fits h size
    → kmalloc size h ≡ ok (p, h')
    → (g : Heap) × (kfree p h' ≡ ok g)
      × ((k : ℕ)
          → bit 8 g.map k
            ≡ (if is_leaked size ((p - h.raw) / 16 - 1) k then true else bit 8 h.map k))
kfree-kmalloc size h h' p v fits e = after (kmalloc-Kmalloced size h v fits)
  where
    after :
        Kmalloced h (blocks (size + 16)) size (kmalloc size h)
        → (g : Heap) × (kfree p h' ≡ ok g)
          × ((k : ℕ)
              → bit 8 g.map k
                ≡ (if is_leaked size ((p - h.raw) / 16 - 1) k then true else bit 8 h.map k))
    after (inl (q, _)) = absurd (panicked≢ok (sym q ∙ e))
    after (inr (f, run, _, q)) =
        let same : (p, h') ≡ (h.raw + f * 16 + 16, holding h f (blocks (size + 16)) size) =
          ok-injective (sym e ∙ q) in
        let at_p : p ≡ h.raw + f * 16 + 16 = ap (λ (s : ℕ × Heap). s.0) same in
        let block : (p - h.raw) / 16 - 1 ≡ f = block_of p h.raw f at_p in
        (
          freed h f size,
          rw (at_p, ap (λ (s : ℕ × Heap). s.1) same) (kfree-holding size f h v fits run),
          λ k. rw block (bit-freed size f h k v run),
        )

-- A size above 2 ^ 32 - 16 wraps when the header is added: where any block is free, `kmalloc` succeeds
-- with a single block, the header's, in which it records the size that was asked for.
pub kmalloc_wraps :
    (size : ℕ) (h : Heap)
    → IsHeap h
    → 2 ^ 32 - 16 < size
    → size < 2 ^ 32
    → (g : ℕ) → IsFreeRun h.map (total_bits h) g 1
    → (f : ℕ) × IsFreeRun h.map (total_bits h) f 1
      × (kmalloc size h
          ≡ ok (
            h.raw + f * 16 + 16,
            record h { map = mark_run 1 f 0 h.map; bytes = store32 h.bytes (h.raw + f * 16) size },
          ))
unfolding kmalloc with_header
kmalloc_wraps size h v over small g one = after (
    with_header-Kmalloced size 1 h (m_map ((size + 16) % 2 ^ 32) h) v (omega arith) (
      rw tiny at (
        m_map_lem ((size + 16) % 2 ^ 32) h v (omega arith) (omega arith)
          (omega (arith, one.exist)))))
  where
    tiny : blocks ((size + 16) % 2 ^ 32) ≡ 1
    tiny = omega arith

    after :
        Kmalloced h 1 size (kmalloc size h)
        → (f : ℕ) × IsFreeRun h.map (total_bits h) f 1
          × (kmalloc size h ≡ ok (h.raw + f * 16 + 16, holding h f 1 size))
    after (inl (_, none_here)) = absurd (none_here g one)
    after (inr (f, run, _, e)) = (f, run, e)

-- A run that is free after another has been marked does not meet it.
runs_apart :
    (h : Heap) (f n g m : ℕ)
    → IsHeap h
    → 0 < n
    → 0 < m
    → f + n ≤ total_bits h
    → IsFreeRun (mark_run n f 0 h.map) (total_bits h) g m
    → (f + n ≤ g) ⊎ (g + m ≤ f)
runs_apart h f n g m v pn pm fits run = elim (Bool-cases (leb f g)) [
  | inl le ↦ inl (le_of_not_lt (λ lt. clash g (ground arith) lt (omega arith) (omega arith)))
  | inr gt ↦ inr (le_of_not_lt (λ lt. clash f (omega arith) (omega arith) (ground arith) lt))
]
  where
    le_of_not_lt : {x y : ℕ} → ¬ (y < x) → x ≤ y
    le_of_not_lt h = omega arith

    clash : (k : ℕ) → f ≤ k → k < f + n → g ≤ k → ¬ (k < g + m)
    clash k a b c d =
        let marked : (bit 8 (mark_run n f 0 h.map) k) ≡ true =
          ground (arith, bit-marked h f n k v fits) in
        cc (marked, run.free k c d)

-- What two successive calls of `kmalloc` return, for sizes that could fit an empty heap, does not
-- overlap: the second lies, with its header, wholly behind the first, or the first behind the second.
pub kmalloc-kmalloc :
    (a b : ℕ) (h h' h'' : Heap) (p q : ℕ)
    → IsHeap h
    → Fits h a
    → Fits h b
    → kmalloc a h ≡ ok (p, h')
    → kmalloc b h' ≡ ok (q, h'')
    → (p + a ≤ q - 16) ⊎ (q + b ≤ p - 16)
kmalloc-kmalloc a b h h' h'' p q v fa fb first second = after (kmalloc-Kmalloced a h v fa)
  where
    na : ℕ
    na = blocks (a + 16)

    nb : ℕ
    nb = blocks (b + 16)

    after_both :
        (f : ℕ)
        → f + na ≤ total_bits h
        → p ≡ h.raw + f * 16 + 16
        → Kmalloced (holding h f na a) nb b (kmalloc b (holding h f na a))
        → kmalloc b (holding h f na a) ≡ ok (q, h'')
        → (p + a ≤ q - 16) ⊎ (q + b ≤ p - 16)
    after_both f fits at_p (inl (e, _)) e' = absurd (panicked≢ok (sym e ∙ e'))
    after_both f fits at_p (inr (g, run, _, e)) e' =
        let at_q : q ≡ h.raw + g * 16 + 16 =
          ap (λ (s : ℕ × Heap). s.0) (ok-injective (sym e' ∙ e)) in
        separate f g at_p at_q (runs_apart h f na g nb v (omega arith) (omega arith) fits run)
      where
        separate :
            (f g : ℕ)
            → p ≡ h.raw + f * 16 + 16
            → q ≡ h.raw + g * 16 + 16
            → (f + na ≤ g) ⊎ (g + nb ≤ f)
            → (p + a ≤ q - 16) ⊎ (q + b ≤ p - 16)
        separate f g ep eq (inl before) = inl (omega arith)
        separate f g ep eq (inr behind) = inr (omega arith)

    after : Kmalloced h na a (kmalloc a h) → (p + a ≤ q - 16) ⊎ (q + b ≤ p - 16)
    after (inl (e, _)) = absurd (panicked≢ok (sym e ∙ first))
    after (inr (f, run, _, e)) =
        let same : (p, h') ≡ (h.raw + f * 16 + 16, holding h f na a) =
          ok-injective (sym first ∙ e) in
        let v' : IsHeap (holding h f na a) = record { base = v.base; top = v.top } in
        let fb' : Fits (holding h f na a) b = record { no_wrap = fb.no_wrap; room = fb.room } in
        after_both f run.exist (ap (λ (s : ℕ × Heap). s.0) same)
          (kmalloc-Kmalloced b (holding h f na a) v' fb')
          (rw (ap (λ (s : ℕ × Heap). s.1) same) at second)
