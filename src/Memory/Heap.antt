-- ===== src/Memory/Heap.antt =====
-- The kernel heap of src/memory/alloc.c: 16-byte blocks, one bit of a byte map for each, first fit.
-- `minfo` and the four `_heap` variables are one record, with the bytes of the map in `map` and all
-- other memory in `bytes` (`Layout` shows that the map lies behind the blocks).
-- `size_t` and `uint32_t` are numbers below 2 ^ 32.
pub mod Layout
pub mod Search
pub mod Map
pub mod Malloc
pub mod Taken
pub mod Realloc
mod Tests
use dek_os.Base.{
  ℕ, zero, suc, ◌+◌, ◌-◌, ◌*◌, ◌/◌, ◌%◌, ◌^◌, Bool, true, false, not, ◌&&◌, ◌||◌, Mem, null,
  store32, load32, ltb, leb, ◌==◌, if◌then◌else◌, Run, ok, panicked, hung, ◌>>=◌,
}
use dek_os.Base.Bitmap.{bit, mark, unmark}
use dek_os.Memory.Block.{int_count, memset, memcpy}

pub record Heap : Type 0 where
  pub bytes : Mem
  pub map : Mem
  pub raw : ℕ
  pub heap_size : ℕ
  pub mem_size : ℕ
  pub heap_start : ℕ
  pub heap_end : ℕ
  pub heap_map_start : ℕ
  pub heap_map_end : ℕ

-- `region_t`
pub record Region : Type 0 where
  pub ptr : ℕ
  pub size : ℕ

abbrev pub no_region : Region
no_region = record { ptr = null; size = 0 }

-- `ALLOC_ALIGN` on a `size_t`
abbrev pub align : ℕ → ℕ
align size = (size + 15) % 2 ^ 32 / 16 * 16

-- `heap_size / ALLOC_ALIGNMENT`
abbrev pub total_bits : Heap → ℕ
total_bits h = h.heap_size / 16

-- `kernel_end` is the address of the linker's symbol `_kernel_end`.
unfoldable pub mem_init : ℕ → ℕ → Heap → Heap
mem_init kernel_end memory_size h =
    let limited = (if ltb (2 ^ 31) memory_size then 2 ^ 31 else memory_size) in
    let heap_size = (limited + 2 ^ 32 - kernel_end) % 2 ^ 32 / 16 * 16 in
    let map_bytes = (heap_size / 16 + 7) / 8 in
    let stop = (kernel_end + heap_size + 2 ^ 32 - map_bytes) % 2 ^ 32 in
    record {
      bytes = h.bytes;
      map = memset h.map 0 0 map_bytes;
      raw = kernel_end;
      heap_size = (stop + 2 ^ 32 - kernel_end) % 2 ^ 32;
      mem_size = limited;
      heap_start = kernel_end;
      heap_end = stop;
      heap_map_start = stop;
      heap_map_end = (stop + map_bytes) % 2 ^ 32;
    }

-- The inner loop of `m_map`, with `n` rounds left: are the blocks `i + j`, … below `total` and free?
unfoldable pub run_is_free : Mem → ℕ → ℕ → ℕ → ℕ → Bool
run_is_free map total zero i j = true
run_is_free map total (suc n) i j =
    let rest = run_is_free map total n i (j + 1) in
    if leb total ((i + j) % 2 ^ 32) || bit 8 map ((i + j) % 2 ^ 32) then false else rest

-- The loop that marks the blocks found.
unfoldable pub mark_run : ℕ → ℕ → ℕ → Mem → Mem
mark_run zero i j map = map
mark_run (suc n) i j map = mark_run n i (j + 1) (mark 8 map ((i + j) % 2 ^ 32))

-- The outer loop of `m_map` from block `i` on, for `n` blocks. Nothing but `i` changes from round to
-- round, and `i` is a `uint32_t`: a loop that runs 2 ^ 32 rounds never ends.
unfoldable pub find_run : ℕ → ℕ → ℕ → Heap → Run (Region × Heap)
find_run zero n i h = hung
find_run (suc fuel) n i h =
    let next = find_run fuel n ((i + 1) % 2 ^ 32) h in
    if ltb ((total_bits h + 2 ^ 32 - n) % 2 ^ 32) i
    then ok (no_region, h)
    else if bit 8 h.map i
    then next
    else if run_is_free h.map (total_bits h) n i 0
    then ok (
      record { ptr = (h.raw + i * 16) % 2 ^ 32; size = n * 16 },
      record h { map = mark_run n i 0 h.map },
    )
    else next

unfoldable pub m_map : ℕ → Heap → Run (Region × Heap)
m_map size h = if size == 0 then ok (no_region, h) else find_run (2 ^ 32) (align size / 16) 0 h

-- The loop of `u_map`.
unfoldable pub unmark_run : ℕ → ℕ → ℕ → Mem → Mem
unmark_run zero index i map = map
unmark_run (suc n) index i map = unmark_run n index (i + 1) (unmark 8 map ((index + i) % 2 ^ 32))

unfoldable pub u_map : Region → Heap → Heap
u_map r h = if (r.ptr == null) || (r.size == 0) then h else record h {
  map = unmark_run (r.size / 16) ((r.ptr + 2 ^ 32 - h.raw) % 2 ^ 32 / 16) 0 h.map;
}

-- The header is one block, and its first word holds the size.
unfoldable pub kmalloc : ℕ → Heap → Run (ℕ × Heap)
kmalloc size h = do
  (region, h') ← m_map ((size + 16) % 2 ^ 32) h
  if region.size == 0
      then panicked
      else ok ((region.ptr + 16) % 2 ^ 32, record h' { bytes = store32 h'.bytes region.ptr size })

unfoldable pub kfree : ℕ → Heap → Run Heap
kfree p h =
    let header = (p + 2 ^ 32 - 16) % 2 ^ 32 in
    if p == null
    then panicked
    else ok (u_map (record { ptr = header; size = (load32 h.bytes header + 16) % 2 ^ 32 }) h)

unfoldable pub calloc : ℕ → ℕ → Heap → Run (ℕ × Heap)
calloc num size h =
    let total_size = num * size % 2 ^ 32 in
    if not (size == 0) && not (total_size / size == num) then ok (null, h) else do
      (p, h') ← kmalloc total_size h
      if p == null then ok (p, h') else ok (p, record h' { bytes = memset h'.bytes p 0 total_size })

-- The old size is read at `ptr - sizeof(size_t)`, which is not where `kmalloc` writes it.
unfoldable pub realloc : ℕ → ℕ → Heap → Run (ℕ × Heap)
realloc p new_size h =
    if p == null
    then kmalloc new_size h
    else if new_size == 0
    then (do h' ← kfree p h; ok (null, h'))
    else do
      (new_ptr, h') ← kmalloc new_size h
      let old_size = load32 h'.bytes ((p + 2 ^ 32 - 4) % 2 ^ 32)
      let copy_size = if ltb new_size old_size then new_size else old_size
      if new_ptr == null then ok (null, h') else do
        h'' ← kfree p (record h' { bytes = memcpy h'.bytes new_ptr p (int_count copy_size) })
        ok (new_ptr, h'')
