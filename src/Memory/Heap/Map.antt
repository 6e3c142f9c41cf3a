-- ===== src/Memory/Heap/Map.antt =====
-- `m_map` and `u_map` of src/memory/alloc.c: first fit, the way back, and a request that hangs.
use native.Mathlib.Nat.{add-zero}
use dek_os.Base.{
  ℕ, zero, suc, ◌+◌, ◌-◌, ◌*◌, ◌/◌, ◌%◌, ◌^◌, ◌≤◌, ◌<◌, ◌≡◌, refl, ap, sym, ◌∙◌, ok-injective, inl,
  inr, true, false, arith, Mem, if◌then◌else◌, ok, hung, ◌==◌,
}
use dek_os.Base.Bitmap.{bit}
use dek_os.Memory.Block.{in_block}
use dek_os.Memory.Heap.{
  Heap, Region, no_region, total_bits, align, run_is_free, mark_run, find_run, m_map, u_map,
}
use dek_os.Memory.Heap.Layout.{IsHeap}
use dek_os.Memory.Heap.Search.{IsFreeRun, Searched, find_run-Searched, bit-mark_run, bit-unmark_run}

-- the blocks that a request takes
abbrev pub blocks : ℕ → ℕ
blocks size = (size + 15) / 16

-- `m_map` of a size, not 0, that could fit an empty heap returns, and takes the first run of free blocks that is long
-- enough: the region starts there, has the size rounded up to whole blocks, and those blocks are
-- marked. If there is no such run it returns the empty region and changes nothing.
pub m_map_lem :
    (size : ℕ) (h : Heap)
    → IsHeap h
    → 0 < size
    → size + 15 < 2 ^ 32
    → blocks size ≤ total_bits h
    → Searched h (blocks size) 0 (m_map size h)
unfolding m_map
m_map_lem size h v pos fits room =
    let n : align size / 16 ≡ blocks size = omega arith in
    let nonzero : (size == 0) ≡ false = ground arith in
    rw (nonzero, n)
      (find_run-Searched (2 ^ 32) (blocks size) 0 h v (omega arith) room (omega arith)
        (omega (arith, v.top)))

-- `u_map` of a region inside the heap frees the whole blocks of its size, and no other block.
pub bit-u_map :
    (h : Heap) (f size k : ℕ)
    → IsHeap h
    → 0 < size
    → f + size / 16 ≤ total_bits h
    → bit 8 (u_map (record { ptr = h.raw + f * 16; size = size }) h).map k
      ≡ (if in_block f (size / 16) k then false else bit 8 h.map k)
unfolding u_map
bit-u_map h f size k v pos fits =
    let present : (h.raw + f * 16 == 0) ≡ false = ground (arith, v.base) in
    let nonzero : (size == 0) ≡ false = ground arith in
    let index : (h.raw + f * 16 + 2 ^ 32 - h.raw) % 2 ^ 32 / 16 ≡ f = omega (arith, v.top) in
    rw (present, nonzero, index)
      (rw (add-zero f) at (bit-unmark_run (size / 16) f 0 h.map k (omega (arith, v.top))))

pub bit-marked :
    (h : Heap) (f n k : ℕ)
    → IsHeap h
    → f + n ≤ total_bits h
    → bit 8 (mark_run n f 0 h.map) k ≡ (if in_block f n k then true else bit 8 h.map k)
bit-marked h f n k v fits = rw (add-zero f) at (bit-mark_run n f 0 h.map k (omega (arith, v.top)))

u_map_none : (h : Heap) (k : ℕ) → bit 8 (u_map no_region h).map k ≡ bit 8 h.map k
unfolding u_map
u_map_none h k = refl

unmark-mark :
    (h : Heap) (f n k : ℕ)
    → IsHeap h
    → 0 < n
    → IsFreeRun h.map (total_bits h) f n
    → bit 8
        (u_map
          (record { ptr = h.raw + f * 16; size = n * 16 })
          (record h { map = mark_run n f 0 h.map })).map
        k
      ≡ bit 8 h.map k
unmark-mark h f n k v pos run =
    let h' : Heap = record h { map = mark_run n f 0 h.map } in
    let v' : IsHeap h' = record { base = v.base; top = v.top } in
    let whole : n * 16 / 16 ≡ n = omega arith in
    ground (
      arith,
      whole,
      bit-u_map h' f (n * 16) k v' (omega arith) (omega (arith, run.exist)),
      bit-marked h f n k v run.exist,
      run.free k,
    )

-- What `m_map` returned for a size, not 0, that could fit an empty heap, given back by `u_map`, leaves
-- every block as it was.
pub u_map-m_map :
    (size : ℕ) (h h' : Heap) (r : Region) (k : ℕ)
    → IsHeap h
    → 0 < size
    → size + 15 < 2 ^ 32
    → blocks size ≤ total_bits h
    → m_map size h ≡ ok (r, h')
    → bit 8 (u_map r h').map k ≡ bit 8 h.map k
u_map-m_map size h h' r k v pos fits room e = after (m_map_lem size h v pos fits room)
  where
    same : {s : Region × Heap} → m_map size h ≡ ok s → (r, h') ≡ s
    same p = ok-injective (sym e ∙ p)

    after : Searched h (blocks size) 0 (m_map size h) → bit 8 (u_map r h').map k ≡ bit 8 h.map k
    after (inl (p, _)) =
        rw (ap (λ (s : Region × Heap). s.0) (same p), ap (λ (s : Region × Heap). s.1) (same p))
          (u_map_none h k)
    after (inr (f, _, run, _, p)) =
        rw (ap (λ (s : Region × Heap). s.0) (same p), ap (λ (s : Region × Heap). s.1) (same p))
          (unmark-mark h f (blocks size) k v (omega arith) run)

run_is_free_short :
    (map : Mem) (total n i j : ℕ)
    → 0 < n
    → i + j < 2 ^ 32
    → total < 2 ^ 31
    → total < i + j + n
    → run_is_free map total n i j ≡ false
unfolding run_is_free
run_is_free_short map total zero i j pos small low short = absurd (omega arith)
run_is_free_short map total (suc n) i j pos small low short =
    let e : (i + j) % 2 ^ 32 ≡ i + j = omega arith in
    rw (e, run_is_free) (ground (arith, run_is_free_short map total n i (j + 1)))

find_run_hangs :
    (fuel i : ℕ) (h : Heap) → IsHeap h → i < 2 ^ 32 → find_run fuel (total_bits h + 1) i h ≡ hung
unfolding find_run
find_run_hangs zero i h v small = refl
find_run_hangs (suc fuel) i h v small = ground (
  arith,
  find_run_hangs fuel ((i + 1) % 2 ^ 32) h v (omega arith),
  run_is_free_short h.map (total_bits h) (total_bits h + 1) i 0 (omega arith) (omega arith)
      (omega (arith, v.top)) (omega arith),
)

-- A request for exactly one block more than the heap has never returns: the bound of the outer loop,
-- `total_bits - num_bits`, wraps to the largest `uint32_t`, which `i` cannot exceed.
pub m_map_hangs :
    (size : ℕ) (h : Heap)
    → IsHeap h
    → size + 15 < 2 ^ 32
    → blocks size ≡ total_bits h + 1
    → m_map size h ≡ hung
unfolding m_map
m_map_hangs size h v fits e =
    let n : align size / 16 ≡ total_bits h + 1 = omega arith in
    let nonzero : (size == 0) ≡ false = ground arith in
    rw (nonzero, n) (find_run_hangs (2 ^ 32) 0 h v (omega arith))
